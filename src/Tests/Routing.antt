-- ===== src/Tests/Routing.antt =====
-- PAC strings parsed.
use zicade_rs.Prelude.{arith, ◌≡◌, refl, ◌∷◌, [], List}
use zicade_rs.Text.{
  rsplit_once, starts_with, to_ascii_uppercase, str_eq, trim, split_whitespace, is_empty, text,
  is_whitespace,
}
use zicade_rs.Routing.Pac.{direct, parse}
use zicade_rs.Routing.Pac.Render.{
  Entry, blank, direct_entry, proxy_entry, socks_entry, render, first_decision, parse-render,
  IsHost,
}

abbrev proxy_list : List Entry
proxy_list = blank ∷ socks_entry (text "gw") ∷ proxy_entry (text "gw") 8080 ∷ direct_entry ∷ []

parse-render_example : parse (render proxy_list) ≡ first_decision proxy_list
unfolding is_whitespace
parse-render_example = parse-render proxy_list (tt, (gw, ((gw, omega arith), (tt, tt))))
  where
    gw : IsHost (text "gw")
    gw = record {
      not_empty = λ e. cc;
      graphic = (refl, (refl, tt));
      one_entry = (refl, (refl, tt));
      no_scheme = (refl, (refl, tt));
    }

-- Only the first word of a piece is looked at.
second_word_ignored : parse (text "noport good:80") ≡ direct
unfolding parse is_empty split_whitespace trim str_eq to_ascii_uppercase starts_with rsplit_once
second_word_ignored = refl
