-- ===== src/Hook/Symbols.antt =====
-- `dlsym`, `cuGetProcAddress` and `bootstrap_cuda`: how calls of the driver come to the hooks, and
-- the hooks to the driver, by the names that src/cuda_defs.h makes of the source's.
use Prim.Native.String.{String}
use text.Mathlib.Text.{◌==◌ as ◌is◌, starts_with}
use nvshare.Prelude.{
  Bool, true, false, ◌&&◌, List, [], ◌∷◌, if◌then◌else◌, Outcome, ok, exited, ◌>>◌, true_or_exit,
}

-- The functions that libnvshare has in place of the driver's.
pub data Hook : Type 0 where
  mem_alloc mem_free mem_get_info get_proc_address get_proc_address_v2 : Hook
  init launch_kernel memcpy memcpy_async memcpy_dtoh : Hook
  memcpy_dtoh_async memcpy_htod memcpy_htod_async memcpy_dtod memcpy_dtod_async : Hook

-- What a look-up gives: one of the hooks, what the real function gives, or an error.
pub data Answer : Type 0 where
  hooked : Hook → Answer
  real : Answer
  not_initialized : Answer

-- The `#define` lines of src/cuda_defs.h, which replace a function's name.
abbrev pub renamings : List (String × String)
renamings =
    ("cuMemGetInfo", "cuMemGetInfo_v2")
    ∷ ("cuMemAlloc", "cuMemAlloc_v2")
    ∷ ("cuMemFree", "cuMemFree_v2")
    ∷ ("cuMemcpyHtoD", "cuMemcpyHtoD_v2")
    ∷ ("cuMemcpyDtoH", "cuMemcpyDtoH_v2")
    ∷ ("cuMemcpyDtoD", "cuMemcpyDtoD_v2")
    ∷ ("cuMemcpyHtoDAsync", "cuMemcpyHtoDAsync_v2")
    ∷ ("cuMemcpyDtoHAsync", "cuMemcpyDtoHAsync_v2")
    ∷ ("cuMemcpyDtoDAsync", "cuMemcpyDtoDAsync_v2")
    ∷ ("nvmlInit", "nvmlInit_v2")
    ∷ ("nvmlDeviceGetHandleByIndex", "nvmlDeviceGetHandleByIndex_v2")
    ∷ []

abbrev pub renamed : List (String × String) → String → String
renamed [] name = name
renamed ((from, to) ∷ table) name =
    let later = renamed table name in if name is from then to else later

-- `CUDA_SYMBOL_STRING`: the name as a string, once the preprocessor has replaced it.
abbrev pub cuda_symbol_string : String → String
cuda_symbol_string name = renamed renamings name

-- A chain of `else if (strcmp(symbol, ...) == 0)`.
unfoldable pub find_hook : String → List (String × Hook) → Answer
find_hook symbol [] = real
find_hook symbol ((name, hook) ∷ table) =
    let later = find_hook symbol table in if symbol is name then hooked hook else later

abbrev pub dlsym_table : List (String × Hook)
dlsym_table =
    (cuda_symbol_string "cuMemAlloc", mem_alloc)
    ∷ (cuda_symbol_string "cuMemFree", mem_free)
    ∷ (cuda_symbol_string "cuMemGetInfo", mem_get_info)
    ∷ (cuda_symbol_string "cuGetProcAddress", get_proc_address)
    ∷ (cuda_symbol_string "cuGetProcAddress_v2", get_proc_address_v2)
    ∷ (cuda_symbol_string "cuInit", init)
    ∷ (cuda_symbol_string "cuLaunchKernel", launch_kernel)
    ∷ (cuda_symbol_string "cuMemcpy", memcpy)
    ∷ (cuda_symbol_string "cuMemcpyAsync", memcpy_async)
    ∷ (cuda_symbol_string "cuMemcpyDtoH", memcpy_dtoh)
    ∷ (cuda_symbol_string "cuMemcpyDtoHAsync", memcpy_dtoh_async)
    ∷ (cuda_symbol_string "cuMemcpyHtoD", memcpy_htod)
    ∷ (cuda_symbol_string "cuMemcpyHtoDAsync", memcpy_htod_async)
    ∷ (cuda_symbol_string "cuMemcpyDtoD", memcpy_dtod)
    ∷ (cuda_symbol_string "cuMemcpyDtoDAsync", memcpy_dtod_async)
    ∷ []

unfoldable pub dlsym_225 : String → Answer
unfolding find_hook
dlsym_225 symbol = if starts_with symbol "cu" then find_hook symbol dlsym_table else real

unfoldable pub dlsym_234 : String → Answer
unfolding find_hook
dlsym_234 symbol = if starts_with symbol "cu" then find_hook symbol dlsym_table else real

abbrev pub proc_address_table : List (String × Hook)
proc_address_table =
    ("cuMemAlloc", mem_alloc)
    ∷ ("cuMemFree", mem_free)
    ∷ ("cuMemGetInfo", mem_get_info)
    ∷ ("cuGetProcAddress", get_proc_address)
    ∷ ("cuGetProcAddress_v2", get_proc_address_v2)
    ∷ ("cuInit", init)
    ∷ ("cuLaunchKernel", launch_kernel)
    ∷ ("cuMemcpy", memcpy)
    ∷ ("cuMemcpyAsync", memcpy_async)
    ∷ ("cuMemcpyDtoH", memcpy_dtoh)
    ∷ ("cuMemcpyDtoHAsync", memcpy_dtoh_async)
    ∷ ("cuMemcpyHtoD", memcpy_htod)
    ∷ ("cuMemcpyHtoDAsync", memcpy_htod_async)
    ∷ ("cuMemcpyDtoD", memcpy_dtod)
    ∷ ("cuMemcpyDtoDAsync", memcpy_dtod_async)
    ∷ []

-- `found` is whether the `real_` pointer is not NULL.
unfoldable pub cu_get_proc_address : Bool → String → Answer
unfolding find_hook
cu_get_proc_address found symbol =
    if found then find_hook symbol proc_address_table else not_initialized

unfoldable pub cu_get_proc_address_v2 : Bool → String → Answer
unfolding find_hook
cu_get_proc_address_v2 found symbol =
    if found then find_hook symbol proc_address_table else not_initialized

-- What the loader answers: whether a library opens, and whether it has a symbol.
pub record Loader : Type 0 where
  pub mutex_initialized : Bool
  pub nvml_opens : Bool
  pub nvml_has : String → Bool
  pub cuda_opens : Bool
  pub cuda_has : String → Bool

abbrev nvml_symbols : List String
nvml_symbols =
    cuda_symbol_string "nvmlDeviceGetUtilizationRates"
    ∷ cuda_symbol_string "nvmlInit"
    ∷ cuda_symbol_string "nvmlDeviceGetHandleByIndex"
    ∷ []

-- The driver's symbols without which the process exits. `cuGetProcAddress` and
-- `cuGetProcAddress_v2` are looked up too, and may be missing.
abbrev pub cuda_symbols : List String
cuda_symbols =
    cuda_symbol_string "cuMemAllocManaged"
    ∷ cuda_symbol_string "cuMemFree"
    ∷ cuda_symbol_string "cuMemGetInfo"
    ∷ cuda_symbol_string "cuGetErrorString"
    ∷ cuda_symbol_string "cuGetErrorName"
    ∷ cuda_symbol_string "cuCtxSetCurrent"
    ∷ cuda_symbol_string "cuCtxGetCurrent"
    ∷ cuda_symbol_string "cuInit"
    ∷ cuda_symbol_string "cuCtxSynchronize"
    ∷ cuda_symbol_string "cuLaunchKernel"
    ∷ cuda_symbol_string "cuMemcpy"
    ∷ cuda_symbol_string "cuMemcpyAsync"
    ∷ cuda_symbol_string "cuMemcpyDtoH"
    ∷ cuda_symbol_string "cuMemcpyDtoHAsync"
    ∷ cuda_symbol_string "cuMemcpyHtoD"
    ∷ cuda_symbol_string "cuMemcpyHtoDAsync"
    ∷ cuda_symbol_string "cuMemcpyDtoD"
    ∷ cuda_symbol_string "cuMemcpyDtoDAsync"
    ∷ []

abbrev pub has_all : (String → Bool) → List String → Bool
has_all has [] = true
has_all has (name ∷ names) = has name && has_all has names

-- The `real_` pointers that are bound, and `nvml_ok`.
pub record Bound : Type 0 where
  pub nvml_ok : Bool
  pub has_get_proc_address : Bool
  pub has_get_proc_address_v2 : Bool

unfoldable pub load_symbols : (String → Bool) → List String → Outcome (Unit {0})
load_symbols has [] = ok tt
load_symbols has (name ∷ names) =
    let rest = load_symbols has names in if has name then rest else exited

unfoldable pub load_nvml : Loader → Bool
load_nvml l = if l.nvml_opens then has_all l.nvml_has nvml_symbols else false

unfoldable pub bootstrap_cuda : Loader → Outcome Bound
unfolding load_symbols load_nvml
bootstrap_cuda l = do
  true_or_exit l.mutex_initialized
  true_or_exit l.cuda_opens
  load_symbols l.cuda_has cuda_symbols
  ok (record {
    nvml_ok = load_nvml l;
    has_get_proc_address = l.cuda_has (cuda_symbol_string "cuGetProcAddress");
    has_get_proc_address_v2 = l.cuda_has (cuda_symbol_string "cuGetProcAddress_v2");
  })
