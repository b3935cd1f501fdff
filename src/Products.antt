-- ===== src/Products.antt =====
-- modules/products: the status of a product, its moderation, its images, and what other modules read.
pub mod Status
pub mod UseCases
pub mod OffMarket
pub mod Certifications
pub mod FileReview
pub mod Compensation
pub mod Verification
