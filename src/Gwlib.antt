-- ===== src/Gwlib.antt =====
-- What the program calls of gwlib and of the machine, as parameters.
-- `Gwlib` holds the string calls of gwlib's `Octstr`, with the documented behaviour that the
-- program relies on; `Env` is what one call finds outside the process: the clock, the thread, the
-- date check of gwlib/date.h and the sender-id service behind `check_sender_api`.
use Prim.Native.String.{String}
use smpp_server.Prelude.{ℕ, ◌+◌, ◌-◌, ◌%◌, ◌^◌, ◌≡◌, ◌↔◌, Bool, true, Option, List}
use smpp_server.Prelude.Int.{ℤ}

pub record Gwlib : Type 1 where
  pub Octstr : Type 0
  -- `octstr_compare(a, b) == 0`: an `Octstr` stands for its bytes.
  pub octstr_same : Octstr → Octstr → Bool
  pub octstr_same_iff : (a b : Octstr) → (octstr_same a b ≡ true) ↔ (a ≡ b)
  pub octstr_imm : String → Octstr
  pub octstr_len : Octstr → ℕ
  -- -1 past the end
  pub octstr_get_char : Octstr → ℕ → ℤ
  -- `octstr_check_range(os, pos, len, gw_isdigit)`
  pub octstr_check_digits : Octstr → ℕ → ℕ → Bool
  -- the bytes from a position on
  pub octstr_from_position : Octstr → ℕ → Octstr
  pub octstr_len-from_position :
      (s : Octstr) (p : ℕ) → octstr_len (octstr_from_position s p) ≡ octstr_len s - p
  -- the parts between the separators
  pub octstr_split : Octstr → Octstr → List Octstr
  -- `octstr_format("%ld%ld%ld", …)`
  pub octstr_format_id : ℕ → ℕ → ℕ → Octstr
  -- `octstr_format("%s%s", …)`
  pub octstr_format_pair : Octstr → Octstr → Octstr
  -- `octstr_format("%ld", …)`
  pub octstr_format_long : ℕ → Octstr
  pub octstr_binary_to_hex : Octstr → Octstr
  -- `does_prefix_match(prefixes, number) == 1`
  pub does_prefix_match : Octstr → Octstr → Bool
  -- `pattern_list_matches_ip(patterns, s) != 0`; the patterns may be NULL
  pub pattern_list_matches_ip : Option Octstr → Octstr → Bool
  -- the constants of gwlib/smpp_pdu.h
  pub smpp_max_source_addr_len : ℕ
  pub smpp_max_dest_addr_len : ℕ
  pub esm_class_submit_udh_indicator : ℕ

-- `Date_Result` of gwlib/date.h
pub data DateResult : Type 0 where
  valid_after_sometime is_valid is_not_valid invalid_date : DateResult

module _ ⦃gw : Gwlib⦄ where
  open gw use {Octstr}

  pub record Env : Type 0 where
    pub now : ℕ  -- time(NULL)
    pub hour : ℕ  -- localtime's tm_hour
    pub thread_self : ℕ
    pub compare_date : Option Octstr → Option Octstr → DateResult
    pub check_sender_api : Octstr → Octstr → Bool

-- A `Counter` is the `unsigned long` that it guards.
abbrev pub counter_increase : ℕ → ℕ
counter_increase n = (n + 1) % 2 ^ 64
