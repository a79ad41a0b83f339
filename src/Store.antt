-- ===== src/Store.antt =====
-- internal/store: the entries, what categories and scopes are allowed, and the ranking.
pub mod Entry
pub mod Allowed
pub mod Ranking
pub mod RankingLaws
