-- ===== src/Samples/Bytes.antt =====
-- The strings of gwlib as lists of bytes: enough of each call to run the program on data.
use Prim.Native.Char.{code}
use Prim.Native.String.{String}
use smpp_server.Prelude.{
  ℕ, zero, suc, ◌+◌, ◌-◌, ◌/◌, ◌%◌, ◌≡◌, ◌↔◌, refl, Bool, true, false, ◌&&◌, Option, none, some,
  List, [], ◌∷◌, ◌++◌, arith, leb, ltb, ◌==◌, length, if◌then◌else◌,
}
use smpp_server.Prelude.Int.{ℤ, pos, minus_one}
use smpp_server.Gwlib.{Gwlib}

abbrev pub Text : Type 0
Text = List ℕ

abbrev pub bytes : String → Text
bytes String.[] = []
bytes (String.◌∷◌ c s) = code c ∷ bytes s

abbrev pub same : Text → Text → Bool
same [] [] = true
same (a ∷ xs) (b ∷ ys) = a == b && same xs ys
same _ _ = false

pub same_iff : (a b : Text) → (same a b ≡ true) ↔ (a ≡ b)
same_iff [] [] = (λ h. refl, λ e. refl)
same_iff [] (b ∷ ys) = (λ h. cc, λ e. cc)
same_iff (a ∷ xs) [] = (λ h. cc, λ e. cc)
same_iff (a ∷ xs) (b ∷ ys) =
    (λ h. ground (arith, same_iff xs ys), λ e. ground (arith, same_iff xs ys))

abbrev pub char_from : Text → ℕ → ℤ
char_from [] i = minus_one
char_from (c ∷ cs) zero = pos c
char_from (c ∷ cs) (suc i) = char_from cs i

abbrev pub drop : Text → ℕ → Text
drop [] i = []
drop (c ∷ cs) zero = c ∷ cs
drop (c ∷ cs) (suc i) = drop cs i

pub length-drop : (s : Text) (p : ℕ) → length (drop s p) ≡ length s - p
length-drop [] p = omega arith
length-drop (c ∷ cs) zero = omega arith
length-drop (c ∷ cs) (suc p) = omega (arith, length-drop cs p)

abbrev pub all_digits : Text → Bool
all_digits [] = true
all_digits (c ∷ cs) = leb b'0' c && leb c b'9' && all_digits cs

abbrev split_at : ℕ → Text → Text → List Text
split_at sep part [] = part ∷ []
split_at sep part (c ∷ cs) =
    let here = split_at sep [] cs in
    let on = split_at sep (part ++ c ∷ []) cs in if c == sep then part ∷ here else on

abbrev split : Text → Text → List Text
split s [] = s ∷ []
split s (sep ∷ _) = split_at sep [] s

-- The decimal digits, by fuel.
abbrev digits : ℕ → ℕ → Text
digits zero n = []
digits (suc fuel) n =
    let rest = digits fuel (n / 10) in
    if ltb n 10 then (b'0' + n) ∷ [] else rest ++ (b'0' + n % 10) ∷ []

abbrev hex_digit : ℕ → ℕ
hex_digit n = if ltb n 10 then b'0' + n else b'A' + n - 10

abbrev hex : Text → Text
hex [] = []
hex (c ∷ cs) = hex_digit (c / 16) ∷ hex_digit (c % 16) ∷ hex cs

abbrev begins : Text → Text → Bool
begins [] t = true
begins (c ∷ cs) [] = false
begins (c ∷ cs) (d ∷ ds) = c == d && begins cs ds

abbrev some_begins : List Text → Text → Bool
some_begins [] t = false
some_begins (p ∷ ps) t =
    let rest = some_begins ps t in if leb 1 (length p) && begins p t then true else rest

abbrev ip_matches : Option Text → Text → Bool
ip_matches none t = false
ip_matches (some p) t = same p t

instance abbrev pub bytes_gw : Gwlib
bytes_gw = record {
  Octstr = Text;
  octstr_same = same;
  octstr_same_iff = same_iff;
  octstr_imm = bytes;
  octstr_len = length;
  octstr_get_char = char_from;
  octstr_check_digits = λ s p n. all_digits (drop s p);
  octstr_from_position = drop;
  octstr_len-from_position = length-drop;
  octstr_split = split;
  octstr_format_id = λ a b c. digits 20 a ++ digits 20 b ++ digits 20 c;
  octstr_format_pair = λ a b. a ++ b;
  octstr_format_long = digits 20;
  octstr_binary_to_hex = hex;
  does_prefix_match = λ p t. some_begins (split p (bytes ";")) t;
  pattern_list_matches_ip = ip_matches;
  smpp_max_source_addr_len = 21;
  smpp_max_dest_addr_len = 21;
  esm_class_submit_udh_indicator = 64;
}
