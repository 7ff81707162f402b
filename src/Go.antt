-- ===== src/Go.antt =====
-- What Go's error values and effects are in the model: an error is a text with the classification
-- that the code asks of it, and a call with effects is an action on a state.
pub mod Errors
pub mod Actions
pub mod Evolves
pub mod Outcomes
pub use Errors.*
unfoldable pub use Actions.*
