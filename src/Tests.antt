-- ===== src/Tests.antt =====
-- Tests, and each theorem at an input that meets its hypotheses.
mod Samples
mod CoreTests
mod GamesTests
mod ServerTests
mod HubTests
mod WebTests
