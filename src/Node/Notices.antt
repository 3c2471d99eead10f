-- ===== src/Node/Notices.antt =====
-- The calls that the master makes of a node: serve of Node in aioros/master/_registry.py, over XML-RPC
-- to the methods of aioros/_node/_api.py.
use aioros.Common.{
  ℕ, ◌≡◌, refl, ap, true, false, List, [], ◌∷◌, Option, some, Str, str, str_eq, starts_with, Result,
  ok, err, assertion_error, connect_timeout, ◌>>=◌, Result-cases, inl, inr, All,
}
use aioros.Value.{ℤ, pos, Value, Items, text, array, nil, cons}
use aioros.Tcpros.{strip, left_strip, right_strip}
use aioros.Xmlrpc.{Python, is_i4}
use aioros.Xmlrpc.Sendable.{IsPython, IsSendable, AreSendable, is_plain}
use aioros.Xmlrpc.Schema.{is_method_name, are_name_chars}
use aioros.Node.ParamCache.{update}
use aioros.Xmlrpc.Remote.{remote_call}
use aioros.Xmlrpc.Calls.{seen, IsSendableResult, remote_call-method}
use aioros.Master.Node.{Task, publisher_update, param_update, shutdown}
use aioros.Node.Client
use aioros.Node.Client.{check_code, is_one}
use aioros.Node.Handle
use aioros.Node.Handle.{Running}
use aioros.Node.Handle.Methods.{Handler, node_method, reply_value, number, as_texts, update_from}

abbrev pub uri_items : List Str → Items
uri_items [] = nil
uri_items (uri ∷ uris) = cons (text uri) (uri_items uris)

module _ {W : Type 0} (call : Str → List Value → W → W × Result Value) where
  -- task.method(client, *task.args), where the client's name is "master"
  unfoldable pub run_task : Task → W → W × Result (Unit {0})
  run_task (publisher_update topic publishers) w =
      Client.publisher_update call (str "master") topic (array (uri_items publishers)) w
  run_task (param_update key value) w = Client.param_update call (str "master") key value w
  run_task (shutdown msg) w = Client.shutdown call (str "master") msg w

  -- a ConnectTimeout is passed over, and any other exception ends the loop
  abbrev pub keep_on : W × Result (Unit {0}) → (W → W × Result (Unit {0})) → W × Result (Unit {0})
  keep_on (w, ok done) rest = rest w
  keep_on (w, err connect_timeout) rest = rest w
  keep_on (w, err e) rest = (w, err e)

  unfoldable pub serve : List Task → W → W × Result (Unit {0})
  serve [] w = (w, ok tt)
  serve (task ∷ tasks) w = keep_on (run_task task w) (serve tasks)

-- the methods that the tasks are about, called on the node itself
abbrev pub reply_of : Running × Result (ℤ × Str × ℕ) → Running × Result Value
reply_of (r, reply) = (r, reply_value number reply)

abbrev pub do_task : Task → Running → Running × Result (ℤ × Str × ℕ)
do_task (publisher_update topic publishers) r = Handle.publisher_update topic publishers r
do_task (param_update key value) r = Handle.param_update key value r
do_task (shutdown msg) r = Handle.shutdown msg r

abbrev pub then_do :
    Running × Result (ℤ × Str × ℕ)
    → (Running → Running × Result (Unit {0}))
    → Running × Result (Unit {0})
then_do (r, ok reply) rest = rest r
then_do (r, err e) rest = (r, err assertion_error)

-- the tasks one after another, up to the first that raises
abbrev pub do_tasks : List Task → Running → Running × Result (Unit {0})
do_tasks [] r = (r, ok tt)
do_tasks (task ∷ tasks) r = then_do (do_task task r) (do_tasks tasks)

module _ (python : Python) where
  -- a task whose arguments survive the way
  abbrev pub IsSendableTask : Task → Type 0
  IsSendableTask (publisher_update topic publishers) =
      IsSendable python (text topic) × AreSendable python (uri_items publishers)
  IsSendableTask (param_update key value) = IsSendable python (text key) × IsSendable python value
  IsSendableTask (shutdown msg) = IsSendable python (text msg)

  abbrev pub AreSendableTasks : List Task → Type 0
  AreSendableTasks [] = Unit
  AreSendableTasks (task ∷ tasks) = IsSendableTask task × AreSendableTasks tasks

as_texts-uri_items : (uris : List Str) → as_texts (uri_items uris) ≡ some uris
as_texts-uri_items [] = refl
as_texts-uri_items (uri ∷ uris) = rw (as_texts-uri_items uris) refl

-- what the loop sees of a method of the node
abbrev pub finished : Running × Result (ℤ × Str × ℕ) → Running × Result (Unit {0})
finished (r, ok reply) = (r, ok tt)
finished (r, err e) = (r, err assertion_error)

-- a reply as the three methods make it
abbrev IsReply : Result (ℤ × Str × ℕ) → Type 0
IsReply (ok (code, msg, n)) = (code ≡ pos 1) × (strip msg ≡ msg) × (is_plain msg ≡ true) × (n ≡ 0)
IsReply (err e) = Unit

do_task-IsReply : (task : Task) (r : Running) → IsReply (do_task task r).1
unfolding Handle.publisher_update Handle.param_update Handle.shutdown left_strip right_strip
    is_plain
do_task-IsReply (publisher_update topic publishers) r = (refl, refl, refl, refl)
do_task-IsReply (param_update key value) r =
    elim (Result-cases (update key value r.node.param_cache).1) [
      | inl (e, raised) ↦ rw raised tt
      | inr (done, told) ↦ rw told (refl, refl, refl, refl)
    ]
do_task-IsReply (shutdown msg) r = (refl, refl, refl, refl)

module _ (python : Python) (int_of : Str → Result ℤ) (other : Handler) (pid : ℕ) where
  -- the proxy of a node
  abbrev pub node_proxy : Str → List Value → Running → Running × Result Value
  node_proxy = remote_call python (node_method int_of other pid)

  sendable_reply :
      (reply : Result (ℤ × Str × ℕ))
      → IsReply reply
      → IsPython python
      → IsSendableResult python (reply_value number reply)
  unfolding IsSendable is_i4
  sendable_reply (err e) h laws = tt
  sendable_reply (ok (code, msg, n)) h laws =
      rw (h.0, h.3) (refl, ((h.1, laws.xml_plain msg h.2), (refl, tt)))

  remote_task :
      (name : Str) (args : List Value) (task : Task) (r : Running)
      → IsPython python
      → is_method_name name ≡ true
      → starts_with name (str "_") ≡ false
      → All (IsSendable python) args
      → node_method int_of other pid name args r ≡ reply_of (do_task task r)
      → node_proxy name args r ≡ ((do_task task r).0, seen (reply_value number (do_task task r).1))
  remote_task name args task r laws named visible h same = rw same at (
      remote_call-method python (node_method int_of other pid) name args r laws named visible h
        (rw same (sendable_reply (do_task task r).1 (do_task-IsReply task r) laws)))

  -- the end of a call, for a reply of the node
  finish_call :
      (o : Running × Result (ℤ × Str × ℕ))
      → IsReply o.1
      → Client.after
          (o.0, seen (reply_value number o.1))
          (λ reply. Client.checked reply >>= Client.ignore_value)
        ≡ finished o
  unfolding check_code is_one
  finish_call (r, err e) h = refl
  finish_call (r, ok (code, msg, n)) h = rw (h.0) refl

  master-IsSendable : IsPython python → IsSendable python (text (str "master"))
  unfolding IsSendable left_strip right_strip is_plain
  master-IsSendable laws = (refl, laws.xml_plain (str "master") refl)

  run_task-do_task :
      (task : Task) (r : Running)
      → IsPython python
      → IsSendableTask python task
      → run_task node_proxy task r ≡ finished (do_task task r)
  unfolding run_task Client.publisher_update Client.param_update Client.shutdown node_method str_eq
      starts_with IsSendable are_name_chars
  run_task-do_task (publisher_update topic publishers) r laws h =
      rw
        (remote_task (str "publisherUpdate")
          (text (str "master") ∷ text topic ∷ array (uri_items publishers) ∷ [])
          (publisher_update topic publishers) r laws refl refl
          (master-IsSendable laws, (h.0, (h.1, tt)))
          (ap
            (λ (uris : Option (List Str)).
              update_from int_of other pid (str "publisherUpdate")
                (text (str "master") ∷ text topic ∷ array (uri_items publishers) ∷ []) topic uris r)
            (as_texts-uri_items publishers)))
        (finish_call (do_task (publisher_update topic publishers) r)
          (do_task-IsReply (publisher_update topic publishers) r))
  run_task-do_task (param_update key value) r laws h =
      rw
        (remote_task (str "paramUpdate") (text (str "master") ∷ text key ∷ value ∷ [])
          (param_update key value) r laws refl refl (master-IsSendable laws, (h.0, (h.1, tt))) refl)
        (finish_call (do_task (param_update key value) r)
          (do_task-IsReply (param_update key value) r))
  run_task-do_task (shutdown msg) r laws h =
      rw
        (remote_task (str "shutdown") (text (str "master") ∷ text msg ∷ []) (shutdown msg) r laws
          refl refl (master-IsSendable laws, (h, tt)) refl)
        (finish_call (do_task (shutdown msg) r) (do_task-IsReply (shutdown msg) r))

  next_task :
      (o : Running × Result (ℤ × Str × ℕ)) (rest other_rest : Running → Running × Result (Unit {0}))
      → ((r : Running) → rest r ≡ other_rest r)
      → keep_on node_proxy (finished o) rest ≡ then_do o other_rest
  next_task (r, ok reply) rest other_rest h = h r
  next_task (r, err e) rest other_rest h = refl

  -- Serving the queue of a node over XML-RPC does to the node what the tasks say, one after another;
  -- where the node raises in a task, an AssertionError leaves the loop and the rest of the queue is
  -- not served. The arguments of the tasks are such that they survive the way.
  pub serve-do_tasks :
      (tasks : List Task) (r : Running)
      → IsPython python
      → AreSendableTasks python tasks
      → serve node_proxy tasks r ≡ do_tasks tasks r
  unfolding serve
  serve-do_tasks [] r laws h = refl
  serve-do_tasks (task ∷ tasks) r laws h = rw (run_task-do_task task r laws h.0) (
      next_task (do_task task r) (serve node_proxy tasks) (do_tasks tasks)
        (λ r'. serve-do_tasks tasks r' laws h.1))
