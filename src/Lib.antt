-- ===== src/Lib.antt =====
-- Verification of the JavaScript libraries that Zen injects into the pages it filters: the engine of
-- extended CSS rules (jslibs/extended-css) and the scriptlets (jslibs/scriptlets); and of the script that
-- publishes the manifests of its releases (scripts).
--
-- Parts. A cosmetic rule is a selector list with extended pseudo-classes. `tokenize` cuts the syntax
-- tree of a selector into raw CSS, combinators and extended pseudo-classes; `plan` turns these tokens
-- into steps, merging raw runs into native queries; a `SelectorExecutor` runs the steps of every
-- selector from the document element; the `Engine` runs all executors and keeps the classes of the
-- page's elements in step with what they find. The scriptlets are separate functions; modelled are the
-- helpers that prune JSON values, select requests, make random responses and store items, and the hooks
-- on requests, timers, listeners, properties, the clipboard and `window.open`.
--
-- Common: tests, lists, sets in insertion order, results, texts as lists of UTF-16 units, `parseInt`.
-- Regexp: jslibs/extended-css/src/parse/utils/parseRegexp.ts and
--   jslibs/scriptlets/src/helpers/parseRegexp.ts (`parseRegexpLiteral`, `parseWildcardPattern`, ...).
-- ExtendedCss.Ast, .Env: what the engine takes from outside, the syntax trees of CSSTree and the DOM.
-- ExtendedCss.PseudoClass: parse/extendedPseudoClasses/index.ts (`extPseudoClasses`).
-- ExtendedCss.Tokenize: parse/selectorList/tokenize.ts. The walk of CSSTree is in document order, with
--   `skip` and `break`.
-- ExtendedCss.Step: the fields of the steps, with the argument parsers of the pseudo-classes.
-- ExtendedCss.Plan: parse/selectorList/plan.ts; `plan_relative` and `plan_default` are its two paths.
-- ExtendedCss.Parse: parse/selectorList/index.ts, and `new extClass(args)`. Its fuel bounds how deep
--   `:has`, `:is` and `:not` nest in the text.
-- ExtendedCss.Executor: engine/selectorExecutor.ts and the methods `run` of all steps
--   (parse/combinators/, parse/extendedPseudoClasses/, parse/selectorList/raw.ts). The walks over
--   siblings and ancestors take the number of those that are left as fuel, which is enough in a tree.
-- ExtendedCss.Engine: engine/index.ts (`collectClassMatches`, `applyClasses`, `applyQueries`, `stop`).
--   `appliedClasses` is an association list, the page a function to the class lists of its elements.
-- ExtendedCss.Throttle: utils/throttle.ts, as what happens at growing times, in microseconds, with delays
--   in milliseconds, to which `setTimeout` cuts.
-- ExtendedCss.Life: the constructor, `start`, the observer and `stop` of engine/index.ts, and index.ts; a
--   step for each event that reaches an engine.
-- Scriptlets.Storage: helpers/storage.ts, set-local-storage-item.ts, set-session-storage-item.ts.
-- Scriptlets.RandomResponse: helpers/request/randomResponse.ts, helpers/parseValidInt.ts.
-- Scriptlets.RequestProps: helpers/request/props.ts.
-- Scriptlets.Json, Scriptlets.JsonPrune: helpers/jsonPrune.ts and helpers/matchStack.ts. `prunePath`
--   changes its value in place; the model returns the value as it is then. The fuel is the depth.
-- ExtendedCss.Rules: parse/index.ts and parse/declarations.ts, one rule.
-- ExtendedCss.Stylesheet: engine/index.ts (`parseRules`, `buildCssRule`).
-- Scriptlets.PreventXhr, .PruneXhr: prevent-xhr.ts and json-prune-xhr-response.ts, each as what happens
--   to one request in turn: calls by the page, timers, and responses. The last effect stands first.
-- Scriptlets.Clipboard: sanitize-clipboard.ts. Scriptlets.SetConstant: set-constant.ts, without the
--   proxies for chains of properties. Scriptlets.Fetch: prevent-fetch.ts, json-prune-fetch-response.ts
--   and json-prune.ts.
-- Scriptlets.Traps: helpers/defineProxyChain.ts, without the proxies of a deferred chain, and the
--   abort-*.ts scriptlets. Scriptlets.Listeners: prevent-add-event-listener.ts.
-- Scriptlets.WindowOpen: prevent-window-open.ts. Scriptlets.Timers: helpers/shouldPrevent.ts,
--   prevent-set-timeout.ts and prevent-set-interval.ts.
-- UploadManifest: scripts/src/upload-manifest.ts, with the world outside as a record; a run is its effects
--   and its exit.
-- Samples: a page of five elements, runs on it, and an instance of each result.
--
-- Outside the model: what `CSSTree.parse`, `CSS.supports`, the DOM and regular expressions compute
-- (fields of `Env` and `Regexps`; the position that the flags `g` and `y` keep is followed only in the
-- loops that remove items and parameters, `test_at`), JSON and UTF-8 as texts (`Codec`), logging, the proxies for chains of properties that are not there yet, the scriptlets that only assign
-- to properties of the platform (nowebrtc.ts, no-topics.ts, no-protected-audience.ts), the Go backend,
-- and the user interface.
pub mod Common
pub mod Regexp
pub mod ExtendedCss
pub mod Scriptlets
pub mod UploadManifest
pub mod Samples
