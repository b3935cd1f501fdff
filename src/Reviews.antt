-- ===== src/Reviews.antt =====
-- modules/reviews: reviews of products, replies of their sellers, and moderation.
pub mod Policy
pub mod Models
pub mod Repository
pub mod ReadModel
pub mod UseCases
pub mod Updates
pub mod Creation
pub mod Calls
pub mod Book
pub mod Board
pub mod Refinement
pub mod Stats
pub mod Composition
pub mod Listing
pub mod Hiding
