-- ===== src/System.antt =====
-- The front end as a system: what its threads do to the list of accounts, one step after another.
-- Every step holds the list's lock, or writes through a pointer into it: the first PDU of a
-- connection (`handle_pdu_bind`), a PDU of a session's thread (`handle_pdu`), the end of a thread
-- (`esme_destroy`), and a message of another process (`handle_request`).
pub mod Invariant
mod Tests
use smpp_server.Prelude.{ℕ, ◌≡◌, false, Option, some, List, []}
use smpp_server.Gwlib.{Gwlib, Env}
use smpp_server.Config.{Client}
use smpp_server.Smscs.{SmscConn}
use smpp_server.Registry.{Esme, SessionStr, is_present_esme, esme_destroy, update_esme_conn}
use smpp_server.Authorise.{TempConn, replace_esme}
use smpp_server.Bind.{BindServer}
use smpp_server.Submit.{Server, Clock}
use smpp_server.Requests.{ConnMsg, Front, handle_request}
use smpp_server.Dispatch.{Pdu, Thread, FirstPdu, handle_pdu, handle_pdu_bind}

module _ ⦃gw : Gwlib⦄ where
  open gw use {Octstr}

  -- The steps, by the accounts of the configuration, which do not change.
  pub data Step (trans : List Client) : List Esme → List Esme → Type 0 where
    opens :
        (sv : BindServer) (env : Env) (temp : TempConn) (pdu : Pdu) (f : FirstPdu)
        → sv.translations ≡ trans
        → temp.bind_successful ≡ false
        → handle_pdu_bind sv env temp pdu ≡ some f
        → Step trans sv.esmes f.esmes
    handles :
        (sv : Server) (env : Env) (clock : Clock) (id : Octstr) (e : Esme) (s : SessionStr)
        (pdu : Pdu) (t : Thread) (es : List Esme)
        → is_present_esme id es ≡ some e
        → handle_pdu sv env clock e s pdu ≡ some t
        → Step trans es (replace_esme id t.esme es)
    ends :
        (id : Octstr) (kind n : ℕ) (es es' : List Esme)
        → esme_destroy id kind n es ≡ some es'
        → Step trans es es'
    requests :
        (rand : ℕ → ℕ) (m : ConnMsg) (f : Front)
        → f.translations ≡ trans
        → Step trans f.esmes (handle_request rand m f).esmes

  -- The lists of accounts that steps lead to from the empty one, with which the server starts.
  pub data Reachable (trans : List Client) : List Esme → Type 0 where
    start : Reachable trans []
    next : {es es' : List Esme} → Reachable trans es → Step trans es es' → Reachable trans es'
