-- ===== src/Web/Rules.antt =====
-- `RulesTab` and `RulesTabPanel` of webui/src/app/dashboard/page.tsx.
pub mod Address
pub mod Forward
pub mod Tabs
