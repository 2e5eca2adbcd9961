-- ===== src/Requests/Effects.antt =====
-- What the messages of the other processes do to the two lists of smpp-esme.
use smpp_server.Prelude.{
  append-nil, either_branch, if_true, ℕ, ◌+◌, ◌≡◌, refl, sym, ap, ◌∙◌, true, ◌<◌, List, [], ◌∷◌,
  ◌++◌, arith, map, length, ltb, Option-cases, Bool-cases, inl, inr,
}
use mathlib.Core.Path.{subst}
use smpp_server.Gwlib.{Gwlib}
use smpp_server.Config.{Client}
use smpp_server.Smscs.{SmscConn, InfoSmsc, prepare_smsc_list}
use smpp_server.Registry.{Esme, is_present_esme, extract_esme}
use smpp_server.Registry.Valid.{RegistryValid}
use smpp_server.Registry.SmscUpdate.{update_esme_conn-RegistryValid}
use smpp_server.Dispatch.Shape.{put_session-SameShape}
use smpp_server.Authorise.Replace.{replace_esme-RegistryValid}
use smpp_server.Requests.{
  ConnMsg, AdminCommand, ValuesGot, Front, admin, info_smsc, no_of_smsc, global_q_msg, deliver,
  values_got, other_msg, handle_admin, handle_info_smsc, deliver_of, produce, handle_values_got,
  handle_running, handle_request,
}

module _ ⦃gw : Gwlib⦄ where
  handle_values_got-RegistryValid :
      (trans : List Client) (rand : ℕ → ℕ) (v : ValuesGot) (es : List Esme)
      → RegistryValid trans es
      → RegistryValid trans (handle_values_got rand v es)
  unfolding handle_values_got
  handle_values_got-RegistryValid trans rand v es h =
      elim (Option-cases (is_present_esme v.account_name es)) [
        | inl n ↦ rw (handle_values_got, n) h
        | inr (e, p) ↦ elim (Option-cases (extract_esme v.account_name rand es)) [
          | inl n ↦ rw (handle_values_got, p, n) h
          | inr ((s, mode), q) ↦
              rw (handle_values_got, p, q)
                (replace_esme-RegistryValid trans v.account_name es e _ p
                  (put_session-SameShape (produce (deliver_of v) s) e) h)
        ]
      ]

  handle_info_smsc-RegistryValid :
      (m : InfoSmsc) (f : Front)
      → RegistryValid f.translations f.esmes
      → RegistryValid f.translations (handle_info_smsc m f).esmes
  unfolding handle_info_smsc
  handle_info_smsc-RegistryValid m f h = elim (Bool-cases (ltb (f.gathered + 1) f.total_smsc_1)) [
    | inl p ↦ rw (handle_info_smsc, p) h
    | inr p ↦ rw (handle_info_smsc, p) (update_esme_conn-RegistryValid f.translations _ f.esmes h)
  ]

  handle_running-RegistryValid :
      (rand : ℕ → ℕ) (m : ConnMsg) (f : Front)
      → RegistryValid f.translations f.esmes
      → RegistryValid f.translations (handle_running rand m f).esmes
  unfolding handle_running handle_admin
  handle_running-RegistryValid rand (admin (AdminCommand.admin_register id)) f h = h
  handle_running-RegistryValid rand (admin AdminCommand.admin_cmd_dbbox_disconnected) f h = h
  handle_running-RegistryValid rand (admin AdminCommand.admin_cmd_dbbox_connected) f h = h
  handle_running-RegistryValid rand (no_of_smsc n) f h = h
  handle_running-RegistryValid rand (info_smsc m) f h = handle_info_smsc-RegistryValid m f h
  handle_running-RegistryValid rand (global_q_msg n) f h = h
  handle_running-RegistryValid rand (deliver id addr pdu) f h =
      elim (Bool-cases f.dbbox_connected) [ inl p ↦ rw p h | inr p ↦ rw p h ]
  handle_running-RegistryValid rand (values_got v) f h = elim (Bool-cases v.found) [
    | inl p ↦ rw p (handle_values_got-RegistryValid f.translations rand v f.esmes h)
    | inr p ↦ rw p h
  ]
  handle_running-RegistryValid rand other_msg f h = h

  -- Every message of another process keeps the list of accounts well formed, whatever the random
  -- numbers are.
  pub handle_request-RegistryValid :
      (rand : ℕ → ℕ) (m : ConnMsg) (f : Front)
      → RegistryValid f.translations f.esmes
      → RegistryValid f.translations (handle_request rand m f).esmes
  unfolding handle_request
  handle_request-RegistryValid rand m f h =
      either_branch (λ (g : Front). RegistryValid f.translations g.esmes) f.running
        (handle_running rand m f) f (handle_running-RegistryValid rand m f h) h

  -- The messages of a list, one after another.
  abbrev pub handle_requests : (ℕ → ℕ) → List ConnMsg → Front → Front
  handle_requests rand [] f = f
  handle_requests rand (m ∷ ms) f = handle_requests rand ms (handle_request rand m f)

  abbrev pub smsc_of : InfoSmsc → SmscConn
  smsc_of m = record {
    smsc_id = m.smsc_id;
    smsc_type = m.smsc_type;
    conn_status = m.conn_status;
    conn_mode = m.conn_mode;
  }

  -- What the info messages of a connection leave: the smscs that they name, in order.
  pub record Gathered (ms : List InfoSmsc) (f g : Front) : Type 0 where
    pub smscs : g.smsc_list ≡ f.smsc_list ++ map smsc_of ms
    pub accounts : g.esmes ≡ f.esmes
    pub count : g.gathered ≡ f.gathered + length ms

  prepared :
      (m : InfoSmsc) (ms : List InfoSmsc) (cs : List SmscConn)
      → prepare_smsc_list m cs ++ map smsc_of ms ≡ cs ++ map smsc_of (m ∷ ms)
  unfolding prepare_smsc_list
  prepared m ms [] = refl
  prepared m ms (c ∷ cs) = ap (◌∷◌ c) (prepared m ms cs)

  gathers_one :
      (rand : ℕ → ℕ) (m : InfoSmsc) (f : Front)
      → f.running ≡ true
      → f.gathered + 1 < f.total_smsc_1
      → handle_request rand (info_smsc m) f
        ≡ record f { gathered = f.gathered + 1; smsc_list = prepare_smsc_list m f.smsc_list }
  unfolding handle_request handle_running handle_info_smsc
  gathers_one rand m f run room =
      if_true f.running _ f run ∙ if_true (ltb (f.gathered + 1) f.total_smsc_1) _ _ (ground arith)

  gathers :
      (rand : ℕ → ℕ) (ms : List InfoSmsc) (f : Front)
      → f.running ≡ true
      → f.gathered + length ms < f.total_smsc_1
      → Gathered ms f (handle_requests rand (map info_smsc ms) f)
  gathers rand [] f run room = record {
    smscs = append-nil f.smsc_list;
    accounts = refl;
    count = omega arith;
  }
  gathers rand (m ∷ ms) f run room =
      let g : Front = record f {
        gathered = f.gathered + 1;
        smsc_list = prepare_smsc_list m f.smsc_list;
      } in
      let rest = gathers rand ms g run (omega arith) in
      let same = gathers_one rand m f run (omega arith) in
      subst (λ x. Gathered (m ∷ ms) f (handle_requests rand (map info_smsc ms) x)) (sym same)
        (record {
          smscs = rest.smscs ∙ prepared m ms f.smsc_list;
          accounts = rest.accounts;
          count = rest.count ∙ omega arith;
        })

  -- When the SMSC process announces a number of smscs and then reports that many, the list of
  -- smscs is the reports in their order, whatever it was before, and no account changes.
  pub handle_requests-gathers :
      (rand : ℕ → ℕ) (ms : List InfoSmsc) (f : Front)
      → f.running ≡ true
      → ((handle_requests rand (no_of_smsc (length ms) ∷ map info_smsc ms) f).smsc_list
          ≡ map smsc_of ms)
        × ((handle_requests rand (no_of_smsc (length ms) ∷ map info_smsc ms) f).esmes ≡ f.esmes)
  unfolding handle_request handle_running
  handle_requests-gathers rand ms f run =
      let g : Front = record f { total_smsc_1 = length ms + 1; gathered = 0; smsc_list = [] } in
      let first : handle_request rand (no_of_smsc (length ms)) f ≡ g = if_true f.running g f run in
      let all_ = gathers rand ms g run (omega arith) in
      (
        ap (λ x. (handle_requests rand (map info_smsc ms) x).smsc_list) first ∙ all_.smscs,
        ap (λ x. (handle_requests rand (map info_smsc ms) x).esmes) first ∙ all_.accounts,
      )
