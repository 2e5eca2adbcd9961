-- ===== src/Authorise/Replace.antt =====
-- Writing through the pointer to an account that is on the list.
use smpp_server.Prelude.{
  ◌∙◌, ◌≡◌, some, List, [], ◌∷◌, arith, All, if◌then◌else◌, Bool-cases, inl, inr,
}
use smpp_server.Gwlib.{Gwlib}
use smpp_server.Registry.{Esme, is_present_esme}
use smpp_server.Config.{Client}
use smpp_server.Registry.Valid.{
  UniqueIds, EsmeValid, RegistryValid, is_present_esme-system_id, All-is_present_esme,
}
use smpp_server.Registry.Shape.{SameShape, SameShape-EsmeValid}
use smpp_server.Authorise.{replace_esme}

module _ ⦃gw : Gwlib⦄ where
  open gw use {Octstr, octstr_same, octstr_same_iff}

  pub All-replace_esme {κ} :
      (P : Esme → Type κ) (id : Octstr) (e' : Esme) (es : List Esme)
      → P e'
      → All P es
      → All P (replace_esme id e' es)
  unfolding replace_esme
  All-replace_esme P id e' [] p v = tt
  All-replace_esme P id e' (x ∷ es) p v = elim (Bool-cases (octstr_same x.system_id id)) [
    | inl s ↦ rw s (p, v.1)
    | inr s ↦ rw s (v.0, All-replace_esme P id e' es p v.1)
  ]

  -- The account that is written is found under its id, and every other one is found as before.
  pub is_present_esme-replace_esme :
      (id j : Octstr) (e e' : Esme) (es : List Esme)
      → is_present_esme id es ≡ some e
      → e'.system_id ≡ id
      → is_present_esme j (replace_esme id e' es)
        ≡ (if octstr_same id j then some e' else is_present_esme j es)
  unfolding replace_esme is_present_esme
  is_present_esme-replace_esme id j e e' [] h n = cc
  is_present_esme-replace_esme id j e e' (x ∷ es) h n = ground (
    arith,
    octstr_same_iff x.system_id id,
    octstr_same_iff x.system_id j,
    octstr_same_iff e'.system_id j,
    octstr_same_iff id j,
    is_present_esme-replace_esme id j e e' es,
  )

  pub UniqueIds-replace_esme :
      (id : Octstr) (e e' : Esme) (es : List Esme)
      → is_present_esme id es ≡ some e
      → e'.system_id ≡ id
      → UniqueIds es
      → UniqueIds (replace_esme id e' es)
  unfolding replace_esme is_present_esme
  UniqueIds-replace_esme id e e' [] h n u = tt
  UniqueIds-replace_esme id e e' (x ∷ es) h n u = elim (Bool-cases (octstr_same x.system_id id)) [
    | inl s ↦ rw s (
      let same : e'.system_id ≡ x.system_id = ground (arith, octstr_same_iff x.system_id id) in
          rw same u.0,
      u.1,
    )
    | inr s ↦ rw s (
      ground (
        arith,
        u.0,
        octstr_same_iff id x.system_id,
        octstr_same_iff x.system_id id,
        is_present_esme-replace_esme id x.system_id e e' es,
      ),
      UniqueIds-replace_esme id e e' es (ground arith) n u.1,
    )
  ]

  -- A write that keeps the account's name and session ids keeps the list well formed.
  pub replace_esme-RegistryValid :
      (trans : List Client) (id : Octstr) (es : List Esme) (e e' : Esme)
      → is_present_esme id es ≡ some e
      → SameShape e e'
      → RegistryValid trans es
      → RegistryValid trans (replace_esme id e' es)
  replace_esme-RegistryValid trans id es e e' here k v = (
    UniqueIds-replace_esme id e e' es here (k.name ∙ is_present_esme-system_id id es e here) v.0,
    All-replace_esme (EsmeValid trans) id e' es
        (SameShape-EsmeValid trans e e' k (All-is_present_esme (EsmeValid trans) id es e here v.1))
        v.1,
  )
