-- ===== src/Hook/Lookup.antt =====
-- Which symbols `dlsym` and `cuGetProcAddress` answer with a hook.
use Prim.Native.String.{String}
use text.Mathlib.Text.{◌==◌ as ◌is◌, starts_with}
use text.Mathlib.TextEquality.{eq_iff}
use nvshare.Prelude.{
  ◌≡◌, refl, sym, ap, ◌∙◌, Bool, true, false, ◌&&◌, List, [], ◌∷◌, Bool-cases, inl, inr, ◌≢◌, All,
}
use nvshare.Hook.Symbols.{
  Hook, hooked, real, find_hook, dlsym_table, proc_address_table, dlsym_225, dlsym_234,
  cu_get_proc_address, cu_get_proc_address_v2, mem_alloc, mem_free, mem_get_info, get_proc_address,
  get_proc_address_v2, init, launch_kernel, memcpy, memcpy_async, memcpy_dtoh, memcpy_dtoh_async,
  memcpy_htod, memcpy_htod_async, memcpy_dtod, memcpy_dtod_async,
}

-- The names of a table that start with a prefix.
abbrev all_start : String → List (String × Hook) → Bool
all_start prefix [] = true
all_start prefix ((name, hook) ∷ table) = starts_with name prefix && all_start prefix table

both : (a b : Bool) → (a && b) ≡ true → (a ≡ true) × (b ≡ true)
both true b h = (refl, h)
both false b h = cc

find_hook-real :
    (symbol prefix : String) (table : List (String × Hook))
    → all_start prefix table ≡ true
    → starts_with symbol prefix ≡ false
    → find_hook symbol table ≡ real
unfolding find_hook
find_hook-real symbol prefix [] a h = refl
find_hook-real symbol prefix ((name, hook) ∷ table) a h =
    let k = both (starts_with name prefix) (all_start prefix table) a in
    elim (Bool-cases (symbol is name)) [
      | inl same ↦
          absurd (distinct (ap (λ s. starts_with s prefix) ((eq_iff symbol name).0 same)) k.0 h)
      | inr other ↦ rw other (find_hook-real symbol prefix table k.1 h)
    ]
  where
    distinct : {a b : Bool} → a ≡ b → b ≡ true → a ≡ false → ⊥
    distinct e f g = cc

dlsym_225-find_hook : (symbol : String) → dlsym_225 symbol ≡ find_hook symbol dlsym_table
unfolding dlsym_225
dlsym_225-find_hook symbol = elim (Bool-cases (starts_with symbol "cu")) [
  | inl cuda ↦ rw cuda refl
  | inr other ↦ rw other (sym (find_hook-real symbol "cu" dlsym_table refl other))
]

-- The name under which `dlsym` finds a hook, and the one under which `cuGetProcAddress` finds it.
abbrev pub exported_name : Hook → String
exported_name mem_alloc = "cuMemAlloc_v2"
exported_name mem_free = "cuMemFree_v2"
exported_name mem_get_info = "cuMemGetInfo_v2"
exported_name get_proc_address = "cuGetProcAddress"
exported_name get_proc_address_v2 = "cuGetProcAddress_v2"
exported_name init = "cuInit"
exported_name launch_kernel = "cuLaunchKernel"
exported_name memcpy = "cuMemcpy"
exported_name memcpy_async = "cuMemcpyAsync"
exported_name memcpy_dtoh = "cuMemcpyDtoH_v2"
exported_name memcpy_dtoh_async = "cuMemcpyDtoHAsync_v2"
exported_name memcpy_htod = "cuMemcpyHtoD_v2"
exported_name memcpy_htod_async = "cuMemcpyHtoDAsync_v2"
exported_name memcpy_dtod = "cuMemcpyDtoD_v2"
exported_name memcpy_dtod_async = "cuMemcpyDtoDAsync_v2"

abbrev pub plain_name : Hook → String
plain_name mem_alloc = "cuMemAlloc"
plain_name mem_free = "cuMemFree"
plain_name mem_get_info = "cuMemGetInfo"
plain_name get_proc_address = "cuGetProcAddress"
plain_name get_proc_address_v2 = "cuGetProcAddress_v2"
plain_name init = "cuInit"
plain_name launch_kernel = "cuLaunchKernel"
plain_name memcpy = "cuMemcpy"
plain_name memcpy_async = "cuMemcpyAsync"
plain_name memcpy_dtoh = "cuMemcpyDtoH"
plain_name memcpy_dtoh_async = "cuMemcpyDtoHAsync"
plain_name memcpy_htod = "cuMemcpyHtoD"
plain_name memcpy_htod_async = "cuMemcpyHtoDAsync"
plain_name memcpy_dtod = "cuMemcpyDtoD"
plain_name memcpy_dtod_async = "cuMemcpyDtoDAsync"

-- Every hook is reached through all four functions: through both versions of `dlsym` under the name
-- that the driver exports, and through both versions of `cuGetProcAddress`, where the driver has
-- them, under the plain name.
pub hook_reached :
    (hook : Hook)
    → (dlsym_225 (exported_name hook) ≡ hooked hook)
      × (dlsym_234 (exported_name hook) ≡ hooked hook)
      × (cu_get_proc_address true (plain_name hook) ≡ hooked hook)
      × (cu_get_proc_address_v2 true (plain_name hook) ≡ hooked hook)
unfolding dlsym_225 dlsym_234 cu_get_proc_address cu_get_proc_address_v2
hook_reached mem_alloc = (refl, refl, refl, refl)
hook_reached mem_free = (refl, refl, refl, refl)
hook_reached mem_get_info = (refl, refl, refl, refl)
hook_reached get_proc_address = (refl, refl, refl, refl)
hook_reached get_proc_address_v2 = (refl, refl, refl, refl)
hook_reached init = (refl, refl, refl, refl)
hook_reached launch_kernel = (refl, refl, refl, refl)
hook_reached memcpy = (refl, refl, refl, refl)
hook_reached memcpy_async = (refl, refl, refl, refl)
hook_reached memcpy_dtoh = (refl, refl, refl, refl)
hook_reached memcpy_dtoh_async = (refl, refl, refl, refl)
hook_reached memcpy_htod = (refl, refl, refl, refl)
hook_reached memcpy_htod_async = (refl, refl, refl, refl)
hook_reached memcpy_dtod = (refl, refl, refl, refl)
hook_reached memcpy_dtod_async = (refl, refl, refl, refl)

find_hook-absent :
    (symbol : String) (table : List (String × Hook))
    → All (λ p. symbol ≢ p.0) table
    → find_hook symbol table ≡ real
unfolding find_hook
find_hook-absent symbol [] a = refl
find_hook-absent symbol ((name, hook) ∷ table) a = elim (Bool-cases (symbol is name)) [
  | inl same ↦ absurd (a.0 ((eq_iff symbol name).0 same))
  | inr other ↦ rw other (find_hook-absent symbol table a.1)
]

-- A symbol that is the exported name of no hook comes from the real `dlsym`, in both versions: the
-- test for the prefix "cu" changes nothing.
pub dlsym_others :
    (symbol : String)
    → ((hook : Hook) → symbol ≢ exported_name hook)
    → (dlsym_225 symbol ≡ real) × (dlsym_234 symbol ≡ real)
unfolding dlsym_225 dlsym_234
dlsym_others symbol other =
    let k =
      dlsym_225-find_hook symbol
      ∙ find_hook-absent symbol dlsym_table (
        other mem_alloc,
        (
          other mem_free,
          (
            other mem_get_info,
            (
              other get_proc_address,
              (
                other get_proc_address_v2,
                (
                  other init,
                  (
                    other launch_kernel,
                    (
                      other memcpy,
                      (
                        other memcpy_async,
                        (
                          other memcpy_dtoh,
                          (
                            other memcpy_dtoh_async,
                            (
                              other memcpy_htod,
                              (
                                other memcpy_htod_async,
                                (other memcpy_dtod, (other memcpy_dtod_async, tt)),
                              ),
                            ),
                          ),
                        ),
                      ),
                    ),
                  ),
                ),
              ),
            ),
          ),
        ),
      ) in
    (k, k)

-- Where the driver has `cuGetProcAddress`, a symbol that is the plain name of no hook comes from it,
-- in both versions.
pub proc_address_others :
    (symbol : String)
    → ((hook : Hook) → symbol ≢ plain_name hook)
    → (cu_get_proc_address true symbol ≡ real) × (cu_get_proc_address_v2 true symbol ≡ real)
unfolding cu_get_proc_address cu_get_proc_address_v2
proc_address_others symbol other =
    let k = find_hook-absent symbol proc_address_table (
      other mem_alloc,
      (
        other mem_free,
        (
          other mem_get_info,
          (
            other get_proc_address,
            (
              other get_proc_address_v2,
              (
                other init,
                (
                  other launch_kernel,
                  (
                    other memcpy,
                    (
                      other memcpy_async,
                      (
                        other memcpy_dtoh,
                        (
                          other memcpy_dtoh_async,
                          (
                            other memcpy_htod,
                            (
                              other memcpy_htod_async,
                              (other memcpy_dtod, (other memcpy_dtod_async, tt)),
                            ),
                          ),
                        ),
                      ),
                    ),
                  ),
                ),
              ),
            ),
          ),
        ),
      ),
    ) in
    (k, k)
