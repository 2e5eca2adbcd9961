-- ===== src/Route.antt =====
-- Routing of a submit: `rout_pdu` of smpp-esme/esme.c, and the number series that `init_connect_ip`
-- reads for it.
pub mod Candidates
pub mod Partition
mod Tests
use smpp_server.Prelude.{
  ℕ, zero, suc, ◌+◌, ◌-◌, ◌%◌, Bool, true, false, not, ◌&&◌, ◌||◌, Option, none, some, List, [],
  ◌∷◌, ◌++◌, map, ◌==◌, ltb, length, if◌then◌else◌,
}
use smpp_server.Prelude.Int.{ℤ, pos, negsuc, minus_one, eqz}
use smpp_server.Prelude.Options.{◌>>=◌}
use smpp_server.Gwlib.{Gwlib}
use smpp_server.Config.{Client, find_username}
use smpp_server.Config.Parse.{CfgGroup}
use smpp_server.Smscs.{SmscConn, is_sender}

-- What a `char` holds after an index is stored in it: the values from 128 on are negative.
abbrev pub to_char : ℕ → ℤ
to_char i = let w = i % 256 in if ltb w 128 then pos w else negsuc (255 - w)

-- The byte that `octstr_append_char` appends for a `char`.
abbrev pub char_byte : ℤ → ℕ
char_byte (pos w) = w
char_byte (negsuc w) = 255 - w

abbrev pub append_chars : List ℕ → List ℕ
append_chars is = map (λ i. char_byte (to_char i)) is

-- The loop over j: `preferred_smsc[j] == i`.
unfoldable pub char_listed : ℕ → List ℤ → Bool
char_listed i [] = false
char_listed i (c ∷ cs) = eqz c (pos i) || char_listed i cs

-- The loop reads up to and including the entry after the last that is set, which is -1.
unfoldable pub in_preferred : List ℕ → ℕ → Bool
in_preferred preferred i =
    ltb 0 (length preferred) && char_listed i (map to_char preferred ++ minus_one ∷ [])

module _ ⦃gw : Gwlib⦄ where
  open gw use {Octstr, octstr_same, octstr_imm, does_prefix_match}

  -- The globals gsm_series, cdma_series, int_series and default_series. The last is not NULL once
  -- `init_connect_ip` has read a core group.
  pub record SeriesConf : Type 0 where
    pub gsm_series : Option Octstr
    pub cdma_series : Option Octstr
    pub int_series : Option Octstr
    pub default_series : Octstr

  abbrev or_empty : Option Octstr → Octstr
  or_empty none = octstr_imm ""
  or_empty (some s) = s

  pub default_of : Option Octstr → Octstr
  default_of none = octstr_imm "gsm"
  default_of (some s) =
      if octstr_same s (octstr_imm "gsm")
        || octstr_same s (octstr_imm "cdma")
        || octstr_same s (octstr_imm "int")
        || octstr_same s (octstr_imm "all")
      then s
      else octstr_imm "gsm"

  -- The series as `init_connect_ip` reads them from the core group.
  unfoldable pub init_series : CfgGroup → SeriesConf
  unfolding default_of
  init_series grp = record {
    gsm_series = some (or_empty (grp.cfg_get "gsm-series"));
    cdma_series = some (or_empty (grp.cfg_get "cdma-series"));
    int_series = some (or_empty (grp.cfg_get "int-series"));
    default_series = default_of (grp.cfg_get "default-series");
  }

  -- One branch of the chain: the type if the series matches.
  abbrev typed : Octstr → Octstr → Octstr → Octstr → Octstr
  typed series type dest default = if does_prefix_match series dest then type else default

  -- "gsm", "cdma", "int" or the default series
  unfoldable pub number_type : SeriesConf → Octstr → Octstr
  number_type conf dest = elim conf.gsm_series [
    | some s ↦ typed s (octstr_imm "gsm") dest conf.default_series
    | none ↦ elim conf.cdma_series [
      | some s ↦ typed s (octstr_imm "cdma") dest conf.default_series
      | none ↦ elim conf.int_series [
        | some s ↦ typed s (octstr_imm "int") dest conf.default_series
        | none ↦ conf.default_series
      ]
    ]
  ]

  -- It takes the type of number and can send.
  abbrev pub takes : Octstr → SmscConn → Bool
  takes type c =
      (octstr_same type c.smsc_type || octstr_same c.smsc_type (octstr_imm "all")) && is_sender c

  -- The search for an smsc by its id, from position i on: where it stands, as a list of at most
  -- one index.
  unfoldable pub position : Octstr → Octstr → ℕ → List SmscConn → List ℕ
  position type id i [] = []
  position type id i (c ∷ cs) =
      if octstr_same id c.smsc_id && takes type c then i ∷ [] else position type id (i + 1) cs

  unfoldable pub dedicated_index : Octstr → Option Octstr → List SmscConn → List ℕ
  dedicated_index type none smscs = []
  dedicated_index type (some id) smscs = position type id 0 smscs

  unfoldable pub preferred_of : Octstr → List Octstr → List SmscConn → List ℕ
  preferred_of type [] smscs = []
  preferred_of type (id ∷ ids) smscs = position type id 0 smscs ++ preferred_of type ids smscs

  unfoldable pub preferred_index : Octstr → Option (List Octstr) → List SmscConn → List ℕ
  preferred_index type none smscs = []
  preferred_index type (some ids) smscs = preferred_of type ids smscs

  -- The loop over all SMSCs, from position i on.
  unfoldable pub allowed_from : Octstr → List ℕ → ℕ → List SmscConn → List ℕ
  allowed_from type preferred i [] = []
  allowed_from type preferred i (c ∷ cs) =
      let rest = allowed_from type preferred (i + 1) cs in
      if not (in_preferred preferred i) && takes type c then i ∷ rest else rest

  -- The return value, and the bytes of the two strings that are set; `none` is not set.
  pub record Route : Type 0 where
    pub code : ℤ
    pub preferred_smsc : Option (List ℕ)
    pub allowed_smsc : Option (List ℕ)

  pub no_route : Route
  no_route = record { code = minus_one; preferred_smsc = none; allowed_smsc = none }

  -- The two arrays have 256 entries, and the loop over the preferred ones reads one more than is
  -- set: `none` is an access past their end.
  unfoldable pub finish : List ℕ → List ℕ → Option Route
  finish preferred allowed =
      if ltb 255 (length preferred) || ltb 256 (length allowed)
      then none
      else some (record {
        code = (if ltb 0 (length preferred) || ltb 0 (length allowed) then pos 0 else minus_one);
        preferred_smsc = some (append_chars preferred);
        allowed_smsc = some (append_chars allowed);
      })

  unfoldable pub preferred_all : Octstr → Client → List SmscConn → List ℕ
  preferred_all type t smscs =
      dedicated_index type t.dedicated_smsc smscs ++ preferred_index type t.preferred_smsc smscs

  pub route_client : Octstr → List SmscConn → Option Client → Option Route
  route_client type smscs none = some no_route
  route_client type smscs (some t) =
      let preferred = preferred_all type t smscs in
      finish preferred (allowed_from type preferred 0 smscs)

  unfoldable pub rout_pdu :
      SeriesConf → List Client → List SmscConn → Option Octstr → Option Octstr → Option Route
  unfolding route_client no_route
  rout_pdu conf trans smscs none username = some no_route
  rout_pdu conf trans smscs (some dest) none = some no_route
  rout_pdu conf trans smscs (some dest) (some username) =
      route_client (number_type conf dest) smscs (find_username trans username)
