-- ===== src/Registry/Shape.antt =====
-- Accounts with the same name and the same session ids are equally well formed.
use smpp_server.Prelude.{◌≡◌, List, length}
use smpp_server.Gwlib.{Gwlib}
use smpp_server.Session.{tx_ids, rx_ids}
use smpp_server.Config.{Client}
use smpp_server.Registry.{Esme}
use smpp_server.Registry.Valid.{EsmeValid}

module _ ⦃gw : Gwlib⦄ where
  pub record SameShape (e e' : Esme) : Type 0 where
    pub name : e'.system_id ≡ e.system_id
    pub tx_same : tx_ids e'.tx_esme ≡ tx_ids e.tx_esme
    pub rx_same : rx_ids e'.rx_esme ≡ rx_ids e.rx_esme
    pub tx_length : length e'.tx_esme ≡ length e.tx_esme
    pub rx_length : length e'.rx_esme ≡ length e.rx_esme

  pub SameShape-EsmeValid :
      (trans : List Client) (e e' : Esme) → SameShape e e' → EsmeValid trans e → EsmeValid trans e'
  SameShape-EsmeValid trans e e' k v = (
    record {
      tx_valid = rw (k.tx_same) v.0.tx_valid;
      rx_valid = rw (k.rx_same) v.0.rx_valid;
      limits = λ t f. rw (k.tx_length, k.rx_length) (v.0.limits t (rw (k.name) at f));
    },
    rw (k.tx_length, k.rx_length) v.1,
  )
