-- ===== src/Samples/Tokens.antt =====
-- The tokens of a selector.
use zen_desktop_localcdn.Common.{true, false, [], ◌∷◌, codes, ◌≡◌, refl, ok, List, Text}
use zen_desktop_localcdn.ExtendedCss.Ast.{
  CssNode, node, nil, cons, selector, type_selector, combinator, pseudo_class_selector, raw,
}
use zen_desktop_localcdn.ExtendedCss.Tokenize.{
  IrToken, raw_token, comb_token, ext_token, parse_tokens,
}
use zen_desktop_localcdn.ExtendedCss.Tokenize.Separated.{separated, parse_tokens-separated}
use zen_desktop_localcdn.Samples.{sample_env}

abbrev sample_text : Text
sample_text = codes "p:contains(Buy)>b"

abbrev sample_selector : CssNode
sample_selector = node selector [] 0 17 (
    cons (node type_selector (codes "p") 0 1 nil) (
      cons (node pseudo_class_selector (codes "Contains") 1 15 (cons (node raw [] 11 14 nil) nil)) (
        cons (node combinator (codes ">") 15 16 nil)
          (cons (node type_selector (codes "b") 16 17 nil) nil))))

abbrev sample_tokens : List IrToken
sample_tokens =
    raw_token (codes "p")
    ∷ ext_token (codes "contains") (codes "Buy")
    ∷ comb_token (codes ">")
    ∷ raw_token (codes "b")
    ∷ []

tokenized : parse_tokens sample_env sample_text sample_selector ≡ ok sample_tokens
unfolding parse_tokens
tokenized = refl

parse_tokens-separated_example : separated false sample_tokens ≡ true
parse_tokens-separated_example =
    parse_tokens-separated sample_env sample_text sample_selector tokenized
