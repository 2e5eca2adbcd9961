-- ===== src/Client/Handle/Rebind.antt =====
-- A bind response that comes while submits wait for their answers.
use smpp_server.Gwlib.{Gwlib}
use smpp_server.Client.Calls.{Calls}
use smpp_server.Client.Status.{Status}
