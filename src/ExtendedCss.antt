-- ===== src/ExtendedCss.antt =====
-- jslibs/extended-css: the engine that applies extended CSS rules to a page.
pub mod Ast
pub mod PseudoClass
pub mod Env
pub mod Tokenize
pub mod Step
pub mod Plan
pub mod Parse
pub mod Executor
pub mod Rules
pub mod Stylesheet
pub mod Life
pub mod Engine
pub mod Throttle
