-- ===== src/Hook/Entry.antt =====
-- The ways into libnvshare: `initialize_libnvshare`, `cuInit`, `cuGetProcAddress` and the real
-- `dlsym`.
use Prim.Native.String.{String}
use nvshare.Prelude.{
  ◌≡◌, Bool, true, false, Option, none, some, if◌then◌else◌, Outcome, ok, ◌>>=◌, ◌>>◌, true_or_exit,
  List, [], ◌∷◌, ◌||◌,
}
use nvshare.Hook.Memory.{CuResult}
use nvshare.Hook.Symbols.{
  Answer, real, Loader, Bound, bootstrap_cuda, dlsym_225, cu_get_proc_address,
  cu_get_proc_address_v2,
}
use nvshare.Client.State.{Process}
use nvshare.Client.Start.{Starting, unstarted, initialize_client}
use nvshare.Client.Invariant.{Reach}

-- `real_dlsym_225`, and `real_dlsym_234` with a version and a variable of its own: `r_dlsym` is
-- whether the static variable is set, `found` whether `dlvsym` finds the function.
unfoldable pub real_dlsym : Bool → Bool → Outcome Bool
real_dlsym found r_dlsym = if r_dlsym then ok true else do true_or_exit found; ok true

-- The variables of the library that its entry sets. `process` is that of `initialize_client`, once it
-- has returned; `init_done` goes with it.
pub record Library : Type 0 where
  pub debug : Bool
  pub enable_single_oversub : Bool
  pub r_dlsym : Bool
  pub bound : Bound
  pub init_libnvshare_done : Bool
  pub process : Option Process

abbrev pub unentered : Library
unentered = record {
  debug = false;
  enable_single_oversub = false;
  r_dlsym = false;
  bound = record { nvml_ok = true; has_get_proc_address = false; has_get_proc_address_v2 = false };
  init_libnvshare_done = false;
  process = none;
}

-- What the system answers while the library is entered: `pthread_once`, `getenv`, `dlvsym`, the
-- loader, and what the client asks.
pub record Entry : Type 0 where
  pub once_libnvshare : Bool
  pub once_client : Bool
  pub debug_set : Bool
  pub enable_single_oversub_set : Bool
  pub dlvsym_found : Bool
  pub loader : Loader
  pub starting : Starting

-- The first look-up of `bootstrap_cuda` asks for the real `dlsym`; where none is asked for, the
-- process exits anyway, since libcuda is missing.
unfoldable pub initialize_libnvshare : Entry → Library → Outcome Library
unfolding real_dlsym
initialize_libnvshare e l = do
  r_dlsym ← real_dlsym e.dlvsym_found l.r_dlsym
  bound ← bootstrap_cuda e.loader
  ok (record l {
    debug = e.debug_set || l.debug;
    enable_single_oversub = e.enable_single_oversub_set || l.enable_single_oversub;
    r_dlsym = r_dlsym;
    bound = bound;
    init_libnvshare_done = true;
  })

-- `pthread_once(&init_libnvshare_done, initialize_libnvshare)`
unfoldable pub libnvshare_once : Entry → Library → Outcome Library
unfolding initialize_libnvshare
libnvshare_once e l = if l.init_libnvshare_done then ok l else initialize_libnvshare e l

-- `pthread_once(&init_done, initialize_client)`
unfoldable pub client_once : Entry → Library → Outcome Library
client_once e l = elim l.process [
  | some p ↦ ok l
  | none ↦ do
    p ← initialize_client e.starting (unstarted l.bound.nvml_ok)
    ok (record l { process = some p })
]

-- The first two lines of `cuInit`, `cuGetProcAddress` and `cuGetProcAddress_v2`.
unfoldable pub enter : Entry → Library → Outcome Library
unfolding libnvshare_once client_once
enter e l = do
  l' ← libnvshare_once e l
  true_or_exit e.once_libnvshare
  l'' ← client_once e l'
  true_or_exit e.once_client
  ok l''

-- A call of the application into the library, before it uses the GPU: `cuInit` with what the real one
-- answers, the other two entries with a symbol, and `dlsym` with a symbol and whether `dlvsym` finds
-- the real one.
pub data LibCall : Type 0 where
  cu_init : Entry → CuResult → LibCall
  get_proc_address : Entry → String → LibCall
  get_proc_address_v2 : Entry → String → LibCall
  dlsym : Bool → String → LibCall

pub data Answered : Type 0 where
  returns : CuResult → Answered
  finds : Answer → Answered

-- `dlsym_225`, and `dlsym_234` likewise: the real function is asked for what is no hook.
unfoldable pub dlsym_call : Bool → Answer → Library → Outcome (Answered × Library)
unfolding real_dlsym
dlsym_call found real l = do
  r_dlsym ← real_dlsym found l.r_dlsym
  ok (finds real, record l { r_dlsym = r_dlsym })
dlsym_call found answer l = ok (finds answer, l)

unfoldable pub lib_call : LibCall → Library → Outcome (Answered × Library)
unfolding enter dlsym_call
lib_call (cu_init e answer) l = do l' ← enter e l; ok (returns answer, l')
lib_call (get_proc_address e symbol) l = do
  l' ← enter e l
  ok (finds (cu_get_proc_address l'.bound.has_get_proc_address symbol), l')
lib_call (get_proc_address_v2 e symbol) l = do
  l' ← enter e l
  ok (finds (cu_get_proc_address_v2 l'.bound.has_get_proc_address_v2 symbol), l')
lib_call (dlsym found symbol) l = dlsym_call found (dlsym_225 symbol) l

unfoldable pub lib_calls : List LibCall → Library → Outcome Library
unfolding lib_call
lib_calls [] l = ok l
lib_calls (c ∷ cs) l = do (answer, l') ← lib_call c l; lib_calls cs l'

abbrev pub is_entry : LibCall → Bool
is_entry (dlsym found symbol) = false
is_entry _ = true

-- The functions of the driver are bound, and the client runs.
pub record IsReady (l : Library) : Type 0 where
  pub done : l.init_libnvshare_done ≡ true
  pub client : Process
  pub started : l.process ≡ some client
  pub begun : Reach client

-- What a call may change in a library that is ready.
pub record IsKept (l l' : Library) : Type 0 where
  pub bound : l'.bound ≡ l.bound
  pub done : l'.init_libnvshare_done ≡ l.init_libnvshare_done
  pub process : l'.process ≡ l.process
  pub single_oversub : l'.enable_single_oversub ≡ l.enable_single_oversub
