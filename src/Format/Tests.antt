-- ===== src/Format/Tests.antt =====
-- Runs of the conversions of code/Format.cpp, and their theorems at concrete values.
use mlnotes.Base.{◌≡◌, inr, refl, some, [], ◌∷◌, ◌++◌, arith, take, codes}
use mlnotes.Format.{
  hex_loop, isprint, nibble_to_char, high_nibble, low_nibble, to_hex_string, isdigit, insert_comma,
  comma_loop, find_dot, to_comma_formatted,
}
use mlnotes.Format.Hex.{read_hex, read_hex-to_hex_string}
use mlnotes.Format.Comma.{grouped, to_comma_formatted-eq-grouped}

to_comma_formatted-runs :
    (to_comma_formatted (codes "1234567.891") ≡ codes "1,234,567.891")
    × (to_comma_formatted (codes "-123") ≡ codes "-,123")
unfolding to_comma_formatted find_dot comma_loop insert_comma isdigit
to_comma_formatted-runs = (refl, refl)

to_comma_formatted-eq-grouped_example :
    to_comma_formatted (b'-' ∷ (codes "123" ++ codes ".5"))
    ≡ b'-' ∷ (grouped (codes "123") ++ codes ".5")
to_comma_formatted-eq-grouped_example =
    to_comma_formatted-eq-grouped b'-' (codes "123") (codes ".5")
      (unfold isdigit in (refl, (refl, (refl, _)))) (ground arith) (inr (codes "5", refl))

to_hex_string-runs : to_hex_string (some (b'A' ∷ 10 ∷ [])) 2 ≡ codes "0x41 (A) , 0x0A"
unfolding to_hex_string hex_loop isprint nibble_to_char high_nibble low_nibble
to_hex_string-runs = refl

read_hex-to_hex_string_example :
    read_hex 2 (to_hex_string (some (b'A' ∷ 10 ∷ 0 ∷ [])) 2) ≡ take 2 (b'A' ∷ 10 ∷ 0 ∷ [])
read_hex-to_hex_string_example =
    read_hex-to_hex_string (b'A' ∷ 10 ∷ 0 ∷ []) 2 (omega arith) (omega arith)
      (omega arith, (omega arith, (omega arith, _)))
