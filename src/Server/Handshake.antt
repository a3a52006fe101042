-- ===== src/Server/Handshake.antt =====
-- The server on top of the client: an open message from its first byte to the answer.
use lightning_cast_endpoint.Base.{
  ℕ, ◌^◌, ◌<◌, ◌≡◌, ap, true, false, List, ◌++◌, some, pos, done, length,
}
use lightning_cast_endpoint.Json.{JsonCpp}
use lightning_cast_endpoint.Wire.Header.{frame}
use lightning_cast_endpoint.Wire.Send.{Accepts}
use lightning_cast_endpoint.Wire.Receive.{stream}
use lightning_cast_endpoint.Client.State.{World, SnapPort}
use lightning_cast_endpoint.Client.Session.{Attempt}
use lightning_cast_endpoint.Client.Calls.{open_call}
use lightning_cast_endpoint.Client.Calls.Opened.{
  reaches, opened, closed_with, StopsTo, open_call_closed, open_call_reopens,
}
use lightning_cast_endpoint.Server.State.{Server}
use lightning_cast_endpoint.Server.Handlers.{open_fields, do_read}
use lightning_cast_endpoint.Server.Opening.{do_read_open}

module _ (json : JsonCpp) {S : Type 0} (port : SnapPort S) where
  -- The client between two calls, and what is left of it when `Open` has closed its session, if it has one: the
  -- player's calls return.
  pub data Rests (w : World S) : World S → Type 0 where
    closed : w.is_open ≡ false → Rests w w
    session :
        (fd : ℕ) (s s' : S)
        → w.is_open ≡ true
        → w.server_fd ≡ some fd
        → StopsTo json port w.snap s
        → StopsTo json port s s'
        → Rests w (closed_with json port s' w)

  open_call-Rests :
      (attempts : List ℕ → Attempt) (ip : List ℕ) {w v : World S}
      → Rests w v
      → open_call json port attempts ip w
        ≡ done (reaches (attempts ip), opened json port attempts ip v)
  open_call-Rests attempts ip {w} (closed off) = open_call_closed json port attempts ip w off
  open_call-Rests attempts ip {w} (session fd s s' on open_fd first second) =
      open_call_reopens json port attempts ip w fd s s' on open_fd first second

  -- An open message on one connection: its answer says whether the attempt to connect has succeeded, and `is_open` says
  -- the same.
  pub handshake :
      (attempts : List ℕ → Attempt) (text rest ip : List ℕ) (root : json.Value)
      (s : Server (World S)) (v : World S)
      → Rests s.cast_client v
      → length text < 2 ^ 32
      → stream s.connection.incoming ≡ frame text ++ rest
      → json.parse text ≡ some root
      → json.int_at root "Cmd" ≡ some (pos 1)
      → json.string_at root "IpAddr" ≡ some ip
      → let b = reaches (attempts ip) in
        Accepts (length (frame (json.write (open_fields b)))) s.connection.writes
        → (s' : Server (World S)) × (do_read json (open_call json port attempts) s
            ≡ done (true, s'))
          × (s'.cast_client ≡ opened json port attempts ip v)
          × (s'.cast_client.is_open ≡ b)
          × (s'.connection.out ≡ s.connection.out ++ frame (json.write (open_fields b)))
          × (stream s'.connection.incoming ≡ rest)
  handshake attempts text rest ip root s v rests short e parsed named address takes =
      let (s', runs, client, out, behind) =
        do_read_open json (open_call json port attempts) text rest ip root s
          (opened json port attempts ip v) (reaches (attempts ip)) short e parsed named address
          (open_call-Rests attempts ip rests) takes in
      (s', runs, client, ap (λ c. c.is_open) client, out, behind)
