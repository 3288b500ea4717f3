-- ===== src/Cortex/Entry.antt =====
-- src/architecture/cortex_m4/exceptions/base.c and advanced.c: entering an exception, the choice of
-- the exception to enter, tail chaining and returning. The model keeps no pipeline timing: the calls
-- that begin or abort it change nothing, and the one that ends a transition is part of the interface.
pub mod Vector
pub mod Enter
pub mod Take
pub mod Leave
pub mod First
pub mod Return
pub mod Examples
