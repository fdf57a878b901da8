-- ===== src/Client/Start.antt =====
-- `read_pod_name`, `read_pod_namespace`, the start of `client_fn`, and `initialize_client`.
use nvshare.Prelude.{
  ℕ, Bool, true, false, List, [], ◌∷◌, Option, none, some, if◌then◌else◌, Outcome, ok, exited,
  ◌>>=◌, ◌>>◌, true_or_exit,
}
use nvshare.Common.Strings.{c_string, strlcpy}
use nvshare.Comm.Messages.{
  Message, MessageType, register, sched_on, sched_off, pod_name_len_max, pod_namespace_len_max,
}
use nvshare.Comm.Ids.{text_as_id}
use nvshare.Client.State.{Process, received, sent}
use nvshare.Client.EarlyRelease.{start_release_early}

-- "none"
abbrev none_text : List ℕ
none_text = 110 ∷ 111 ∷ 110 ∷ 101 ∷ []

-- `getenv("HOSTNAME")`
unfoldable pub read_pod_name : Option (List ℕ) → ℕ → List ℕ
read_pod_name (some value) size = c_string (strlcpy value size).dst
read_pod_name none size = c_string (strlcpy none_text size).dst

-- `fopen`, `fgets` (the string it stores, `none` for NULL) and whether `fclose` returns 0.
pub record NamespaceFile : Type 0 where
  pub opened : Bool
  pub fgets : Option (List ℕ)
  pub closed : Bool

unfoldable pub read_line : Option (List ℕ) → ℕ → List ℕ
read_line none size = c_string (strlcpy none_text size).dst
read_line (some line) size = line

unfoldable pub read_pod_namespace : NamespaceFile → ℕ → Outcome (List ℕ)
unfolding read_line
read_pod_namespace file size =
    if file.opened
    then true_or_exit file.closed >> ok (read_line file.fgets size)
    else ok (c_string (strlcpy none_text size).dst)

-- What the process finds in its environment.
pub record Environment : Type 0 where
  pub on_kubernetes : Bool  -- KUBERNETES_SERVICE_HOST is set
  pub hostname : Option (List ℕ)
  pub namespace_file : NamespaceFile

abbrev pod_message : List ℕ → List ℕ → Message
pod_message pod_name pod_namespace = record {
  type = register;
  pod_name = pod_name;
  pod_namespace = pod_namespace;
  id = 1234;
  text = [];
}

unfoldable pub kubernetes_message : Environment → Outcome Message
unfolding read_pod_namespace read_pod_name
kubernetes_message env = do
  pod_namespace ← read_pod_namespace env.namespace_file pod_namespace_len_max
  ok (pod_message (read_pod_name env.hostname pod_name_len_max) pod_namespace)

unfoldable pub register_message : Environment → Outcome Message
unfolding kubernetes_message
register_message env =
    if env.on_kubernetes
    then kubernetes_message env
    else ok (
        pod_message (c_string (strlcpy none_text pod_name_len_max).dst)
          (c_string (strlcpy none_text pod_namespace_len_max).dst))

-- The identifier is scanned from the text of the message.
unfoldable pub with_id : Option ℕ → Process → Outcome Process
with_id none s = exited
with_id (some id) s = ok (record s { nvshare_client_id = id })

unfoldable pub take_id : Message → Process → Outcome Process
unfolding with_id
take_id in_msg s = with_id (text_as_id in_msg.text) s

unfoldable pub take_status : MessageType → Process → Outcome Process
take_status sched_on s = ok (record s { scheduler_on = true; own_lock = false; need_lock = false })
take_status sched_off s = ok (record s { scheduler_on = false; own_lock = true; need_lock = false })
take_status _ s = exited

unfoldable pub initial_status : Message → Process → Outcome Process
unfolding take_id take_status
initial_status in_msg s = do
  s ← take_status in_msg.type (record s { log = received in_msg.type ∷ s.log })
  take_id in_msg s

-- What the system answers while the client starts: `cuInit`, `nvshare_connect`, `write_whole`,
-- `nvshare_receive_block` (`none` where it does not read a whole message), the pthread and semaphore
-- calls, NVML.
pub record Starting : Type 0 where
  pub environment : Environment
  pub cuda_initialized : Bool
  pub connected : Bool
  pub written : Bool
  pub answer : Option Message
  pub threads_created : Bool
  pub nvml_opened : Bool

unfoldable pub receive : Option Message → Outcome Message
receive none = exited
receive (some in_msg) = ok in_msg

-- `client_fn` up to its loop.
unfoldable pub client_fn : Starting → Process → Outcome Process
unfolding register_message receive initial_status
client_fn w s = do
  true_or_exit w.cuda_initialized
  out_msg ← register_message w.environment
  true_or_exit w.connected
  true_or_exit w.written
  in_msg ← receive w.answer
  initial_status in_msg (record s { log = sent out_msg ∷ s.log })

-- The release thread starts once the client thread has posted the semaphore.
unfoldable pub initialize_client : Starting → Process → Outcome Process
unfolding client_fn start_release_early
initialize_client w s = do
  true_or_exit w.threads_created
  s ← client_fn w (record s { scheduler_on = false; own_lock = false; need_lock = false })
  ok (start_release_early w.nvml_opened s)

-- The global variables before `initialize_client`, when the symbols of the libraries are bound.
unfoldable pub unstarted : Bool → Process
unstarted nvml_ok = record {
  scheduler_on = false;
  own_lock = false;
  need_lock = false;
  did_work = false;
  nvml_ok = nvml_ok;
  cuda_ctx_ok = false;
  pending_kernel_window = 1;
  nvshare_client_id = 0;
  log = [];
}
