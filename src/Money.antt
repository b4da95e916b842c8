-- ===== src/Money.antt =====
-- Amounts of money. The program computes them in float64, which is the type `W` here, with the
-- operations of the language and of package math that it uses, and rounds to cents by `round2`.
pub mod Fixed
mod Interface
pub use Interface.{Float, IsOrdered, IsCents, ◌⊕◌, ◌⊖◌, ◌⊗◌, ◌⊘◌, ◌≺◌, ◌≼◌}
unfoldable pub use Interface.{round2}
