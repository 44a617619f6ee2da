-- ===== src/Crawler.antt =====
-- packages/crawler/src: what a crawl fetches, and what it reads of it.
pub mod Url
pub mod Hosts
pub mod Robots
pub mod Sitemap
pub mod Frontier
pub mod Crawl
pub mod Loading
pub mod Examples
