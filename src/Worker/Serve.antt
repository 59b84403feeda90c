-- ===== src/Worker/Serve.antt =====
-- shiitake-worker/src/client.rs: the configuration, the handshake and the wait for work. What
-- arrives and the answers of the socket are arguments.
pub mod Rounds
pub mod Clean
pub mod Dirty
pub mod Quota
use shiitake.Prelude.Strings.{trim, split}
use shiitake.Prelude.{
  ℕ, zero, suc, ◌+◌, ◌-◌, ◌*◌, ◌/◌, ◌%◌, ◌^◌, ◌≤◌, ◌<◌, String, ◌≡◌, refl, sym, ap, ◌∙◌, ◌≢◌, ◌↔◌,
  ◌⊎◌, inl, inr, Bool, true, false, not, ◌&&◌, ◌||◌, Option, none, some, List, [], ◌∷◌, ◌++◌, map,
  arith, ltb, leb, ◌==◌, if◌then◌else◌, ltb→lt, leb→le, ==_iff, Bool-cases, Option-cases, is_some,
  is_none, length, take, drop, is_empty, all, any, retain, count, All, length-append, count-append,
  All-append, take-length-append, drop-length-append, take-append-drop, length-take, All-retain,
  Str, str, str_eq, str_eq_iff, str_eq_refl, str_le, str_le-total, is_ascii_alphanumeric, Result,
  ok, err, ◌>>=◌, ok_or, ℤ, pos, negsuc,
}
use shiitake.Prelude.Map.{
  Map, get, contains_key, insert, remove, adjust, values, keys, get-insert, get-remove, get-adjust,
  AllValues, get-AllValues, insert-AllValues, remove-AllValues, adjust-AllValues,
  adjust_at-AllValues, retain-AllValues, IsUnique, insert-IsUnique, remove-IsUnique,
  adjust-IsUnique, retain-IsUnique, keep_if, get-retain, map_values, get-map_values,
  map_values-AllValues, any-keys-retain,
}
use shiitake.Api.Wire.{
  WorkerLocation, ExecuteFrame, PtyOpenFrame, SessionOpenFrame, ResultFrame, errored, Frame,
  protocol_version,
}

pub record ClientConfig : Type 0 where
  pub worker_id : Str
  pub profile : Str
  pub dispatch_url : Str
  pub dispatch_token : Str
  pub pod_name : Str
  pub pod_namespace : Str
  pub container_name : Str
  pub capture_root : Str
  pub reset_paths : Str
  pub restart_after : ℕ
  pub lease_timeout_secs : ℕ

unfoldable pub scratch_paths : ClientConfig → List Str
unfolding trim split
scratch_paths cfg = retain (λ path. not (is_empty path)) (map trim (split b',' [] cfg.reset_paths))

unfoldable pub location : ClientConfig → Option WorkerLocation
location cfg =
    if is_empty cfg.pod_name || is_empty cfg.pod_namespace
    then none
    else some (record {
      pod = cfg.pod_name;
      namespace = cfg.pod_namespace;
      container = if is_empty cfg.container_name then cfg.worker_id else cfg.container_name;
    })

pub data Work : Type 0 where
  execute : ExecuteFrame → Work
  pty : PtyOpenFrame → Work
  session : SessionOpenFrame → Work

-- A message on the socket: a frame or a text that is none, a ping, a close, an error, and any other;
-- `silence` is a lease without one.
pub data Inbound : Type 0 where
  text : Frame → Inbound
  bad_text : Str → Inbound
  ping : Inbound
  close : Inbound
  failed : Str → Inbound
  other : Inbound
  silence : Inbound

-- What the worker does, in its order. A reset tells whether it succeeded.
pub data Deed : Type 0 where
  connect : Deed
  send : Frame → Deed
  refuse : ResultFrame → Deed
  pong : Deed
  perform : Work → Deed
  reset : Bool → Deed
  hang_up : Deed

-- The loop for the acknowledgement; `none` while it waits. A pong that cannot be sent ends it.
unfoldable pub handshake : List (Inbound × Bool) → List Deed × Option (Result (Unit {0}) Str)
handshake [] = ([], none)
handshake ((text (Frame.hello_ack version), sent) ∷ rest) = (
  [],
  some (
      if version == protocol_version
      then ok tt
      else err (str "unexpected dispatcher handshake frame")),
)
handshake ((text (Frame.execute frame), sent) ∷ rest) = (
  refuse (errored frame.request_id (str "incompatible dispatcher protocol; command was not run"))
      ∷ [],
  some (err (str "dispatcher did not acknowledge protocol version")),
)
handshake ((text _, sent) ∷ rest) = ([], some (err (str "unexpected dispatcher handshake frame")))
handshake ((bad_text e, sent) ∷ rest) = ([], some (err e))
handshake ((ping, sent) ∷ rest) =
    let later = handshake rest in
    if sent then (pong ∷ later.0, later.1) else (pong ∷ [], some (err (str "send failed")))
handshake ((close, sent) ∷ rest) =
    ([], some (err (str "dispatcher closed before protocol acknowledgement")))
handshake ((failed e, sent) ∷ rest) =
    ([], some (err (str "dispatcher closed before protocol acknowledgement")))
handshake ((silence, sent) ∷ rest) =
    ([], some (err (str "dispatcher protocol acknowledgement timed out")))
handshake ((other, sent) ∷ rest) = handshake rest

-- `next_execute`; `none` while it waits.
unfoldable pub next_execute : List Inbound → List Deed × Option (Result (Option Work) Str)
next_execute [] = ([], none)
next_execute (text (Frame.execute frame) ∷ rest) = ([], some (ok (some (execute frame))))
next_execute (text (Frame.pty_open frame) ∷ rest) = ([], some (ok (some (pty frame))))
next_execute (text (Frame.session_open frame) ∷ rest) = ([], some (ok (some (session frame))))
next_execute (text _ ∷ rest) = next_execute rest
next_execute (bad_text e ∷ rest) = ([], some (err e))
next_execute (ping ∷ rest) = let later = next_execute rest in (pong ∷ later.0, later.1)
next_execute (close ∷ rest) = ([], some (ok none))
next_execute (failed e ∷ rest) = ([], some (err e))
next_execute (silence ∷ rest) = ([], some (ok none))
next_execute (other ∷ rest) = next_execute rest
