-- ===== src/ExtendedCss/Engine/Apply.antt =====
-- What one call of `applyClasses` does to the page and to `appliedClasses`.
use zen_desktop_localcdn.Common.{◌&&◌, ◌||◌, if◌then◌else◌, Text, ◌≡◌, arith}
use zen_desktop_localcdn.Common.Sets.{text_eq_inst, contains}
use zen_desktop_localcdn.ExtendedCss.Env.{Env, Element}
use zen_desktop_localcdn.ExtendedCss.Engine.Maps.{Classes, gives, IsMap}
use zen_desktop_localcdn.ExtendedCss.Engine.Retire.{retire-page, gives-retire, retire-IsMap}
use zen_desktop_localcdn.ExtendedCss.Engine.Give.{give-gives, give-page, give-IsMap}
use zen_desktop_localcdn.ExtendedCss.Engine.{Page, retire, apply_classes}

module _ (env : Env) (page : Page) (applied desired : Classes) where
  -- Behind the call the map gives an HTML element exactly its desired classes. (Another element
  -- keeps those that it had and that are desired.)
  pub apply_classes-gives :
      (x : Element) (c : Text)
      → IsMap applied
      → IsMap desired
      → gives (apply_classes env page applied desired).applied x c ≡ (
          if env.is_html_element x
          then gives desired x c
          else gives applied x c && gives desired x c)
  unfolding apply_classes
  apply_classes-gives x c a d = ground (
    arith,
    give-gives env (record (retire desired page applied) { moved = 0 }) desired x c d,
    gives-retire desired page applied x c a,
  )

  -- A class that the engine had applied stays on its element exactly if it is still there and still
  -- desired. Any other class stays if it was there, and is added if it is desired.
  pub apply_classes-page :
      (x : Element) (c : Text)
      → IsMap applied
      → IsMap desired
      → contains ((apply_classes env page applied desired).page x) c ≡ (
          if gives applied x c
          then contains (page x) c && gives desired x c
          else contains (page x) c || (env.is_html_element x && gives desired x c))
  unfolding apply_classes
  apply_classes-page x c a d = ground (
    arith,
    give-page env (record (retire desired page applied) { moved = 0 }) desired x c d,
    retire-page desired page applied x c a,
    gives-retire desired page applied x c a,
  )

  pub apply_classes-IsMap : IsMap applied → IsMap (apply_classes env page applied desired).applied
  unfolding apply_classes
  apply_classes-IsMap a =
      give-IsMap env (record (retire desired page applied) { moved = 0 }) desired
        (retire-IsMap desired page applied a)
