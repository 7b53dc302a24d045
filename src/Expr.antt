-- ===== src/Expr.antt =====
-- pkg/expr/expr.go: the templates of Tests, `{{ config.x }}` and the like.
pub mod Refs
pub mod Eval
pub mod Total
pub mod Positions
pub mod Verbatim
mod Samples
