-- ===== src/Samples/Codec.antt =====
-- A PDU of smpp-smsc that is packed as a list of its fields, behind four bytes, and unpacked again.
use smpp_server.Prelude.{
  ℕ, zero, suc, ◌≡◌, refl, Bool, true, false, Option, none, some, [], ◌∷◌, ◌++◌, length,
}
use smpp_server.Prelude.Int.{ℤ, pos, negsuc}
use smpp_server.Prelude.Options.{◌>>=◌}
use smpp_server.Client.Calls.{SmPdu}
use smpp_server.Samples.Bytes.{drop, Text, bytes_gw}

abbrev put_int : ℤ → Text → Text
put_int (pos n) t = 0 ∷ n ∷ t
put_int (negsuc n) t = 1 ∷ n ∷ t

abbrev get_int : ℕ → ℕ → ℤ
get_int zero n = pos n
get_int (suc _) n = negsuc n

abbrev put_text : Text → Text → Text
put_text s t = length s ∷ (s ++ t)

abbrev take_text : ℕ → Text → Option (Text × Text)
take_text zero t = some ([], t)
take_text (suc n) [] = none
take_text (suc n) (c ∷ t) = do (s, r) ← take_text n t; some (c ∷ s, r)

take_put : (s t : Text) → take_text (length s) (s ++ t) ≡ some (s, t)
take_put [] t = refl
take_put (c ∷ s) t = rw (take_put s t) refl

abbrev get_text : Text → Option (Text × Text)
get_text [] = none
get_text (n ∷ t) = take_text n t

abbrev take_int : Text → Option (ℤ × Text)
take_int (s ∷ n ∷ t) = some (get_int s n, t)
take_int _ = none

take_put_int : (z : ℤ) (t : Text) → take_int (put_int z t) ≡ some (z, t)
take_put_int (pos n) t = refl
take_put_int (negsuc n) t = refl

abbrev put_option : Option Text → Text → Text
put_option none t = 0 ∷ t
put_option (some s) t = 1 ∷ put_text s t

abbrev take_option : Text → Option (Option Text × Text)
take_option [] = none
take_option (zero ∷ t) = some (none, t)
take_option (suc _ ∷ t) = do (s, r) ← get_text t; some (some s, r)

take_put_option : (o : Option Text) (t : Text) → take_option (put_option o t) ≡ some (o, t)
take_put_option none t = refl
take_put_option (some s) t = rw (take_put s t) refl

abbrev put_bool : Bool → ℕ
put_bool true = 1
put_bool false = 0

abbrev get_bool : ℕ → Bool
get_bool zero = false
get_bool (suc _) = true

get_put_bool : (b : Bool) → get_bool (put_bool b) ≡ b
get_put_bool true = refl
get_put_bool false = refl

abbrev pub pack : SmPdu → Text
pack p =
    0
    ∷ 0
    ∷ 0
    ∷ 0
    ∷ put_bool p.is_submit_sm
    ∷ p.sequence_number
    ∷ p.esm_class
    ∷ p.registered_delivery
    ∷ p.data_coding
    ∷ put_int p.source_addr_ton (
        put_int p.source_addr_npi (
          put_int p.dest_addr_ton (
            put_int p.dest_addr_npi (
              put_int p.priority_flag (
                put_int p.more_messages_to_send (
                  put_int p.user_response_code (
                    put_option p.service_type (
                      put_text p.source_addr
                        (put_text p.destination_addr (put_text p.short_message []))))))))))

abbrev pub unpack : Text → Option SmPdu
unpack (b ∷ n ∷ esm ∷ reg ∷ coding ∷ t0) = do
  (ston, t1) ← take_int t0
  (snpi, t2) ← take_int t1
  (dton, t3) ← take_int t2
  (dnpi, t4) ← take_int t3
  (prio, t5) ← take_int t4
  (more, t6) ← take_int t5
  (code, t7) ← take_int t6
  (service, t8) ← take_option t7
  (source, t9) ← get_text t8
  (dest, t10) ← get_text t9
  (short, t11) ← get_text t10
  some (record {
    is_submit_sm = get_bool b;
    sequence_number = n;
    service_type = service;
    source_addr = source;
    source_addr_ton = ston;
    source_addr_npi = snpi;
    destination_addr = dest;
    dest_addr_ton = dton;
    dest_addr_npi = dnpi;
    esm_class = esm;
    priority_flag = prio;
    registered_delivery = reg;
    data_coding = coding;
    more_messages_to_send = more;
    short_message = short;
    user_response_code = code;
  })
unpack _ = none

pub unpack-pack : (p : SmPdu) → unpack (drop (pack p) 4) ≡ some p
unpack-pack p =
    rw
      (
        take_put_int p.source_addr_ton,
        take_put_int p.source_addr_npi,
        take_put_int p.dest_addr_ton,
        take_put_int p.dest_addr_npi,
        take_put_int p.priority_flag,
        take_put_int p.more_messages_to_send,
        take_put_int p.user_response_code,
        take_put_option p.service_type,
        take_put p.source_addr,
        take_put p.destination_addr,
        take_put p.short_message,
        get_put_bool p.is_submit_sm,
      )
      refl
