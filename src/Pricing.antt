-- ===== src/Pricing.antt =====
-- app/app/domain/workbench/pricing.py: how much of the models was used. `Usage` has the counts and
-- what a notice adds, `Notices` what a sequence of notices adds up to, `Turns` the totals of a
-- conversation. Money is a natural number of 10⁻⁶ of the currency.
pub mod Usage
pub mod Notices
pub mod Turns
mod Tests
