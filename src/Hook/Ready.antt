-- ===== src/Hook/Ready.antt =====
-- What the first call into libnvshare sets up, and what later calls leave: src/hook.c with
-- src/client.c.
use Prim.Native.String.{String}
use nvshare.Prelude.{◌≡◌, true, Option, exited, ◌>>=◌, ◌>>◌, true_or_exit}
use nvshare.Hook.Memory.{CuResult}
use nvshare.Hook.Entry.{Library, Entry}
use nvshare.Client.Invariant.{Reach}
mod Tests

-- The first initializer.
record IsBootstrapped (l l' : Library) : Type 0 where
  done : l'.init_libnvshare_done ≡ true
  process : l'.process ≡ l.process
