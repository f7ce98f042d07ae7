-- ===== src/Fs/Tests/Attributes.antt =====
-- The calls that name a file: the theorems at a concrete state.
use neantis.Prelude.{◌≡◌, refl}
use neantis.Fs.Run.{ok}
use neantis.Fs.Errno.{error, enoent}
use neantis.Fs.Attributes.{sys_chdir}
use neantis.Fs.Tests.{quiet, small, state}

fails : sys_chdir 0 small ≡ ok (error enoent) (state (sys_chdir 0 small))
unfolding sys_chdir
fails = refl
