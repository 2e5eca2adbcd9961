-- ===== src/System/Invariant.antt =====
-- The list of accounts is well formed in every state that the front end reaches.
use smpp_server.Prelude.{sym, List}
use mathlib.Core.Path.{subst}
use smpp_server.Gwlib.{Gwlib}
use smpp_server.Config.{Client}
use smpp_server.Registry.{Esme}
use smpp_server.Registry.Valid.{RegistryValid}
use smpp_server.Registry.Destroy.{esme_destroy-RegistryValid}
use smpp_server.Dispatch.Replies.{handle_pdu_bind-Opened}
use smpp_server.Dispatch.Shape.{handle_pdu-SameShape}
use smpp_server.Authorise.Replace.{replace_esme-RegistryValid}
use smpp_server.Requests.{handle_request}
use smpp_server.Requests.Effects.{handle_request-RegistryValid}
use smpp_server.System.{Step, opens, handles, ends, requests, Reachable, start, next}

module _ ⦃gw : Gwlib⦄ where
  open gw use {Octstr}

  -- Each step of the front end, whatever thread takes it, keeps the list of accounts well formed:
  -- system ids stay unique, every account has a session, and each kind of session has distinct ids
  -- and a number within the limit of the configuration.
  pub Step-RegistryValid :
      {trans : List Client} {es es' : List Esme}
      → Step trans es es'
      → RegistryValid trans es
      → RegistryValid trans es'
  Step-RegistryValid {trans} (opens sv env temp pdu f c fresh h) v =
      subst (λ ts. RegistryValid ts f.esmes) c
        (handle_pdu_bind-Opened sv env temp pdu f
          (subst (λ ts. RegistryValid ts sv.esmes) (sym c) v) fresh h).valid
  Step-RegistryValid {trans} (handles sv env clock id e s pdu t es here h) v =
      replace_esme-RegistryValid trans id es e t.esme here
        (handle_pdu-SameShape sv env clock e s pdu t h) v
  Step-RegistryValid {trans} (ends id kind n es es' h) v =
      esme_destroy-RegistryValid trans id kind n es es' v h
  Step-RegistryValid {trans} (requests rand m f c) v =
      subst (λ ts. RegistryValid ts (handle_request rand m f).esmes) c
        (handle_request-RegistryValid rand m f (subst (λ ts. RegistryValid ts f.esmes) (sym c) v))

  -- In every state that the front end reaches the list of accounts is well formed.
  pub Reachable-RegistryValid :
      {trans : List Client} {es : List Esme} → Reachable trans es → RegistryValid trans es
  Reachable-RegistryValid start = (tt, tt)
  Reachable-RegistryValid (next r s) = Step-RegistryValid s (Reachable-RegistryValid r)
