-- ===== src/Repository.antt =====
-- main/repository: the repositories of data-products and the structures that they keep.
pub mod LinkedProdMap
pub mod Objects
pub mod Own
pub mod ProdFile
pub mod RcvProdFile
pub mod Shelf
pub mod SubRepo
pub mod PubRepo
