-- ===== src/Hook/Ready/Tests.antt =====
-- Calls into libnvshare on concrete answers of the system.
use nvshare.Prelude.{◌≡◌, refl, Bool, true, false, List, [], ◌∷◌, none, some, Outcome, ok, exited}
use nvshare.Common.Strings.{strlcpy}
use nvshare.Comm.Messages.{zero_message, sched_on}
use nvshare.Comm.Ids.{text_as_id}
use nvshare.Client.Start.{initialize_client, unstarted}
use nvshare.Hook.Memory.{cuda_success}
use nvshare.Hook.Symbols.{load_symbols, load_nvml, bootstrap_cuda}
use nvshare.Hook.Entry.{
  Library, Entry, unentered, LibCall, cu_init, get_proc_address, dlsym, lib_calls,
}

abbrev entry : Entry
entry = record {
  once_libnvshare = true;
  once_client = true;
  debug_set = false;
  enable_single_oversub_set = true;
  dlvsym_found = true;
  loader = record {
    mutex_initialized = true;
    nvml_opens = false;
    nvml_has = λ name. false;
    cuda_opens = true;
    cuda_has = λ name. true;
  };
  starting = record {
    environment = record {
      on_kubernetes = false;
      hostname = none;
      namespace_file = record { opened = false; fgets = none; closed = true };
    };
    cuda_initialized = true;
    connected = true;
    written = true;
    answer = some (record zero_message { type = sched_on; text = b'2' ∷ b'a' ∷ [] });
    threads_created = true;
    nvml_opened = true;
  };
}

-- The answers are other ones the second time, and are not asked for.
abbrev later : List LibCall
later =
    dlsym true "cuLaunchKernel"
    ∷ get_proc_address (record entry { dlvsym_found = false; enable_single_oversub_set = false })
        "cuInit"
    ∷ []

abbrev summary : Outcome Library → List Bool
summary (ok l) =
    l.enable_single_oversub
    ∷ l.bound.nvml_ok
    ∷ elim l.process [ none ↦ [] | some p ↦ p.scheduler_on ∷ p.nvml_ok ∷ [] ]
summary _ = []

entered :
    summary (lib_calls (cu_init entry cuda_success ∷ later) unentered)
    ≡ true ∷ false ∷ true ∷ false ∷ []
unfolding lib_calls initialize_client unstarted text_as_id strlcpy bootstrap_cuda
    nvshare.Hook.Symbols.dlsym_225
entered = refl

-- Without libcuda the process does not go on.
no_driver :
    lib_calls
      (get_proc_address
          (record entry { loader = record entry.loader { cuda_opens = false } })
          "cuInit"
        ∷ [])
      unentered
    ≡ exited
unfolding lib_calls bootstrap_cuda
no_driver = refl
