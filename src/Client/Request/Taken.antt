-- ===== src/Client/Request/Taken.antt =====
-- A submit that is taken is routed.
use smpp_server.Prelude.{
  sym, ℕ, zero, suc, ◌-◌, ◌<◌, ◌≡◌, refl, ap, ◌∙◌, Bool, true, false, ◌&&◌, none, some, List, [],
  ◌∷◌, ◌++◌, map, All, ltb, arith, length, get_elem?, if_true,
}
use smpp_server.Prelude.Int.{ℤ, pos}
use smpp_server.Prelude.Options.{◌>>=◌}
use smpp_server.Gwlib.{Gwlib}
use smpp_server.Client.Calls.{Calls}
use smpp_server.Client.Msg.{Msg, msg_create}
use smpp_server.Client.Conn.{Conn}
use smpp_server.Client.Rout.{receiver, positions, Routed, done, smsc2_rout}
use smpp_server.Client.Rout.Idle.{conns, forget_load}
use smpp_server.Client.Rout.First.{Exists, FirstOf, FirstOf-receiver}
use smpp_server.Client.Rout.Outcome.{Outcome}
use smpp_server.Client.Rout.Ends.{smsc2_rout-Outcome}
use smpp_server.Client.Request.{
  blank, place, is_nil, Submit, submit, Server, info_of, message_of, take_submit, handle_submit,
  handle_request,
}

positions-pos :
    (bytes : List ℕ) (n : ℕ) → positions (map pos bytes ++ blank (suc n)) ≡ some (map pos bytes)
unfolding positions
positions-pos [] n = refl
positions-pos (b ∷ bs) n = rw (positions-pos bs n) refl

place_lem :
    (size : ℕ) (bytes : List ℕ)
    → length bytes < size
    → (a : List ℤ) × (place size bytes ≡ some a) × (positions a ≡ some (map pos bytes))
unfolding place
place_lem size bytes h =
    let e : size - length bytes ≡ suc (size - length bytes - 1) = omega arith in
    (
      map pos bytes ++ blank (size - length bytes),
      if_true (ltb (length bytes) size) _ none (ground arith),
      ap (λ n. positions (map pos bytes ++ blank n)) e ∙ positions-pos bytes _,
    )

elem_below :
    {A : Type 0} (xs : List A) (i : ℕ) → i < length xs → (x : A) × (get_elem? xs i ≡ some x)
elem_below [] i h = absurd (omega arith)
elem_below (x ∷ xs) zero h = (x, refl)
elem_below (x ∷ xs) (suc i) h = elem_below xs i (omega arith)

length-map : {A B : Type 0} (f : A → B) (xs : List A) → length (map f xs) ≡ length xs
length-map f [] = refl
length-map f (x ∷ xs) = ap suc (length-map f xs)

and_false : (b : Bool) → (b && false) ≡ false
and_false true = refl
and_false false = refl

module _ ⦃gw : Gwlib⦄ where
  open gw use {Octstr}

  -- An index below the number of connections is the position of one.
  below-Exists :
      (cs : List Conn) (bytes : List ℕ)
      → All (λ b. b < length cs) bytes
      → All (Exists (conns cs)) (map pos bytes)
  below-Exists cs [] h = tt
  below-Exists cs (b ∷ bs) h =
      let size = length-map forget_load cs in
      (elem_below (conns cs) b (omega arith), below-Exists cs bs h.1)

  -- The message that a submit becomes.
  pub record Carries (s : Submit) (os : Octstr) (m : Msg) : Type 0 where
    pub info : m.sm_info ≡ info_of s (some os)
    pub to : m.routing_info.destination_addr ≡ s.destination_addr
    pub from : m.routing_info.source_addr ≡ s.source_addr
    pub new : m.retries ≡ 0

  -- The message of a submit whose two strings are in these arrays.
  abbrev pub created : Submit → Octstr → List ℤ → List ℤ → Msg
  created s os preferred allowed = msg_create (info_of s (some os)) (record {
    preferred_smsc = preferred;
    allowed_smsc = allowed;
    source_addr = s.source_addr;
    destination_addr = s.destination_addr;
    data_coding = s.data_coding;
    esm_class = s.esm_class;
    more_messages_to_send = s.more_messages_to_send;
    content = s.content;
  })

  message_of_lem :
      (size : ℕ) (s : Submit) (os : Octstr) {preferred allowed : List ℤ}
      → place size s.preferred_smsc ≡ some preferred
      → place size s.allowed_smsc ≡ some allowed
      → message_of size s (some os) ≡ some (created s os preferred allowed)
  unfolding message_of
  message_of_lem size s os h1 h2 = rw (h1, ◌>>=◌, h2)

  take_submit_lem :
      (c : Calls) (fuel : ℕ) (s : Submit) (os : Octstr) (v : Server) {m : Msg} {x : Routed}
      → message_of v.max_smsc s (some os) ≡ some m
      → smsc2_rout c false fuel m v.smscs v.outgoing ≡ done x
      → take_submit c fuel s (some os) v
        ≡ some (record v { smscs = x.smscs; outgoing = x.outgoing })
  unfolding take_submit
  take_submit_lem c fuel s os v h run = rw (h, ◌>>=◌, run)

  handle_request_lem :
      (c : Calls) (fuel : ℕ) (s : Submit) (os : Octstr) (v : Server)
      → v.running ≡ true
      → v.dndcheck_flag ≡ false
      → s.pdu ≡ some os
      → (is_nil s.preferred_smsc && is_nil s.allowed_smsc) ≡ false
      → handle_request c fuel (submit s) v ≡ take_submit c fuel s (some os) v
  unfolding handle_request handle_submit
  handle_request_lem c fuel s os v running dnd pdu some_position =
      rw (running, dnd, some_position, pdu)

  created-Carries : (s : Submit) (os : Octstr) (a1 a2 : List ℤ) → Carries s os (created s os a1 a2)
  unfolding msg_create
  created-Carries s os a1 a2 = record { info = refl; to = refl; from = refl; new = refl }

  created-arrays :
      (s : Submit) (os : Octstr) (a1 a2 : List ℤ)
      → ((created s os a1 a2).routing_info.preferred_smsc ≡ a1)
        × ((created s os a1 a2).routing_info.allowed_smsc ≡ a2)
  unfolding msg_create
  created-arrays s os a1 a2 = (refl, refl)

  -- A preferred connection is the first that serves the submit.
  abbrev pub Served : Calls → Submit → Octstr → List Conn → Type 0
  Served c s os cs =
      (p : ℤ) × FirstOf c (created s os [] []) (conns cs) p (map pos s.preferred_smsc)

  created-receiver :
      (s : Submit) (os : Octstr) (a1 a2 b1 b2 : List ℤ)
      → receiver (created s os a1 a2) ≡ receiver (created s os b1 b2)
  unfolding msg_create
  created-receiver s os a1 a2 b1 b2 = refl

  map_nil : (bytes : List ℕ) → map pos bytes ≡ [] → bytes ≡ []
  map_nil [] h = refl
  map_nil (b ∷ bs) h = cc

  no_split : {A : Type 0} (xs ys : List A) (x : A) → [] ≡ xs ++ x ∷ ys → ⊥
  no_split [] ys x h = cc
  no_split (y ∷ xs) ys x h = cc

  some_position :
      (c : Calls) (s : Submit) (os : Octstr) (cs : List Conn) (ps as_ : List ℕ)
      → s.preferred_smsc ≡ ps
      → (as_ ≡ [] → Served c s os cs)
      → (is_nil ps && is_nil as_) ≡ false
  some_position c s os cs (p ∷ ps) as_ e r = refl
  some_position c s os cs [] (a ∷ as_) e r = refl
  some_position c s os cs [] [] e r =
      let (p, f) = r refl in absurd (no_split f.before f.after p (ap (map pos) (sym e) ∙ f.split))

  -- A submit with a PDU, taken while smpp-smsc runs without the check of numbers, whose indices are
  -- below the number of connections and fewer in each string than its array holds, and which has an
  -- allowed one or a preferred one that is the first to serve it, becomes one new message with the
  -- names and the PDU of the submit, and that is routed among the connections that the bytes of the
  -- two strings number, in their order; nothing else of the process changes.
  pub handle_request-Outcome :
      (c : Calls) (fuel : ℕ) (s : Submit) (v : Server) (os : Octstr)
      → v.running ≡ true
      → v.dndcheck_flag ≡ false
      → s.pdu ≡ some os
      → length s.preferred_smsc < v.max_smsc
      → length s.allowed_smsc < v.max_smsc
      → All (λ i. i < length v.smscs) s.preferred_smsc
      → All (λ i. i < length v.smscs) s.allowed_smsc
      → (s.allowed_smsc ≡ [] → Served c s os v.smscs)
      → (m : Msg) × (x : Routed) × (handle_request c (suc fuel) (submit s) v
          ≡ some (record v { smscs = x.smscs; outgoing = x.outgoing }))
        × Carries s os m
        × Outcome c false m
            (conns v.smscs)
            v.outgoing
            (map pos s.preferred_smsc)
            (map pos s.allowed_smsc)
            x
  handle_request-Outcome c fuel s v os running dnd pdu size1 size2 h1 h2 reads =
      let (a1, placed1, read1) = place_lem v.max_smsc s.preferred_smsc size1 in
      let (a2, placed2, read2) = place_lem v.max_smsc s.allowed_smsc size2 in
      let m = created s os a1 a2 in
      let arrays = created-arrays s os a1 a2 in
      let (x, run, outcome) =
        smsc2_rout-Outcome c false fuel m v.smscs v.outgoing (map pos s.preferred_smsc)
          (map pos s.allowed_smsc) (ap positions arrays.0 ∙ read1) (ap positions arrays.1 ∙ read2)
          (below-Exists v.smscs s.preferred_smsc h1) (below-Exists v.smscs s.allowed_smsc h2)
          (λ e.
            let (p, f) = reads (map_nil s.allowed_smsc e) in
            (
              p,
              FirstOf-receiver c (created s os [] []) m (conns v.smscs) p (map pos s.preferred_smsc)
                  (created-receiver s os [] [] a1 a2) f,
            )) in
      (
        m,
        x,
        handle_request_lem c (suc fuel) s os v running dnd pdu
              (some_position c s os v.smscs s.preferred_smsc s.allowed_smsc refl reads)
            ∙ take_submit_lem c (suc fuel) s os v (message_of_lem v.max_smsc s os placed1 placed2)
                run,
        created-Carries s os a1 a2,
        outcome,
      )
