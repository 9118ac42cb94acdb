-- ===== src/Proxy/Sessions.antt =====
-- src/proxy.rs: `serve`. The listener, the tasks of `connect` and the decrypted connections, whose
-- requests and beginnings come in any order.
pub mod Invariants
pub mod Shutdown
use cicache.Prelude.{ℕ, ◌≡◌, Bool, true, false, ◌&&◌, Option, none, some, List, [], ◌∷◌, ◌++◌}
use cicache.Text.Utf8.{Bytes}
use cicache.Stats.{Outcome}
use cicache.Store
use cicache.Store.{Store}
use cicache.Store.Uploads.{Step}
use cicache.Proxy.Serving.{Setup, Proxy, note}
use cicache.Proxy.Dispatch.{
  Task, intercept, tunnel, Request, Dispatched, dispatch, begin_task, tunnel_authority,
}

module _ (setup : Setup) where
  open setup use {net, fs, up, config}

  -- The tasks that have not begun, and those whose connections are decrypted.
  pub record Listener : Type 0 where
    pub proxy : Proxy setup
    pub tasks : List Task
    pub decrypted : List Task

  abbrev pub queued : Option Task → List Task → List Task
  queued none tasks = tasks
  queued (some task) tasks = task ∷ tasks

  unfoldable pub received : Listener → Dispatched setup → Listener
  received l d = record {
    proxy = d.proxy;
    tasks = queued d.spawned l.tasks;
    decrypted = l.decrypted;
  }

  -- A decrypted connection is served once the certificate is made and the handshake succeeds.
  abbrev pub opened : Bool → Task → List Task → List Task
  opened true (intercept host port) ts = intercept host port ∷ ts
  opened true (tunnel host port) ts = ts
  opened false task ts = ts

  unfoldable pub begun : Bool → Bool → Task → List Task → Listener → Listener
  begun upgraded shaken task others l = record {
    proxy = begin_task setup upgraded task l.proxy;
    tasks = others;
    decrypted = opened (upgraded && shaken) task l.decrypted;
  }

  -- What a request does between two places at which it waits or may be dropped: it looks its key up,
  -- leaves the clients in some state by a call, stores an object, or is recorded.
  pub data Part : Type 0 where
    looks : Bytes → Part
    sends : up.World → Part
    stores : Bytes → Bytes → Part
    notes : Outcome → Bytes → Bytes → ℕ → ℕ → Part

  unfoldable pub do_part : Part → Proxy setup → Proxy setup
  do_part (looks key) s = record s { store = (Store.get net fs config key s.store).1 }
  do_part (sends world) s = record s { world = world }
  do_part (stores key bytes) s = record s { store = Store.put net fs config key bytes s.store }
  do_part (notes outcome method url bytes millis) s = note setup outcome method url bytes millis s

  -- Requests run at the same time, and one may be dropped where it waits. `progressed` is a part of
  -- such a request, any part at any time, so that every interleaving of requests is a sequence of steps;
  -- a request that is served without a break is also one step, at its arrival. For the rest, a request
  -- arrives at the listener; a task begins; a request arrives on a decrypted connection, or it is
  -- closed; the upload loop takes a step.
  pub data ServeStep : Listener → Listener → Type 0 where
    accepted :
        (now : ℕ) (req : Request setup) (l : Listener)
        → ServeStep l (received l (dispatch setup now req none l.proxy))
    started :
        (upgraded shaken : Bool) (task : Task) (before after : List Task) (l : Listener)
        → l.tasks ≡ before ++ task ∷ after
        → ServeStep l (begun upgraded shaken task (before ++ after) l)
    asked :
        (now : ℕ) (req : Request setup) (host : Bytes) (port : ℕ) (before after : List Task)
        (l : Listener)
        → l.decrypted ≡ before ++ intercept host port ∷ after
        → ServeStep l
            (received l (dispatch setup now req (some (tunnel_authority setup host port)) l.proxy))
    closed :
        (task : Task) (before after : List Task) (l : Listener)
        → l.decrypted ≡ before ++ task ∷ after
        → ServeStep l (record l { decrypted = before ++ after })
    uploaded :
        (l : Listener) (store : Store net fs)
        → Step net fs config l.proxy.store store
        → ServeStep l (record l { proxy = record l.proxy { store = store } })
    progressed :
        (part : Part) (l : Listener) → ServeStep l (record l { proxy = do_part part l.proxy })

  pub data Serves : Listener → Listener → Type 0 where
    served : (l : Listener) → Serves l l
    then_serves : (l m n : Listener) → ServeStep l m → Serves m n → Serves l n
