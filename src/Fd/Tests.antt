-- ===== src/Fd/Tests.antt =====
-- crates/handoff/src/fd.rs: two sources, each at the other's target.
use handoff.Prelude.{ℕ, zero, suc, ◌≡◌, true, none, some, List, [], ◌∷◌, arith}
use handoff.Error.{ok}
use handoff.Fd.{Table, install_inherited_fds}
use handoff.Fd.Linux.{linux, linux-IsSound, linux-IsWilling}
use handoff.Fd.Stages.{AllOpen}
use handoff.Fd.Arranged.{arranged, Installs, install_inherited_fds-Installs}
use handoff.Fd.Completes.{FreeFrom, install_inherited_fds-completes}

-- Description 40 stands at 3 and description 30 at 4.
abbrev crossed : Table
crossed zero = none
crossed (suc zero) = none
crossed (suc (suc zero)) = none
crossed (suc (suc (suc zero))) = some (record { description = 40; cloexec = true })
crossed (suc (suc (suc (suc zero)))) = some (record { description = 30; cloexec = true })
crossed _ = none

crossed-FreeFrom : FreeFrom 5 crossed
crossed-FreeFrom j lo = ground arith

abbrev swap : List ℕ
swap = 4 ∷ 3 ∷ []

crossed-AllOpen : AllOpen crossed swap
crossed-AllOpen = ((λ e. ground arith), ((λ e. ground arith), tt))

install_inherited_fds-Installs_example :
    Installs swap crossed (install_inherited_fds linux swap crossed)
install_inherited_fds-Installs_example =
    install_inherited_fds-Installs linux linux-IsSound swap crossed crossed-AllOpen

install_inherited_fds-completes_example :
    install_inherited_fds linux swap crossed ≡ (ok tt, arranged swap crossed)
install_inherited_fds-completes_example =
    install_inherited_fds-completes linux linux-IsSound 64 linux-IsWilling 5 swap crossed
      (omega arith) (omega arith) crossed-FreeFrom crossed-AllOpen
