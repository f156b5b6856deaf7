-- ===== src/Client/Main/Keys.antt =====
-- client.c over the laws of the interface: the keys and arguments that it reads were written.
use tinyfile.Common.{◌≡◌, some, arith, ap}
use tinyfile.Common.Run.{Run}
use tinyfile.Common.Gives.{Gives, gives, faults, blocks, runs_out, after}
use tinyfile.Types.{Arg, compress, EntryIdx}
use tinyfile.Library.{Library, IsLibrary}
use tinyfile.Client.{Program, put_library}
use tinyfile.Client.Main.{submit, sync_call}

put_library-Gives :
    {S A : Type 0} {P : A → Type 0} {r : Run S A} (s : Program S)
    → Gives (λ a t. P a) r
    → Gives (λ a t. P a) (put_library s r)
put_library-Gives s (gives p) = gives p
put_library-Gives s faults = faults
put_library-Gives s blocks = blocks
put_library-Gives s runs_out = runs_out

-- With a library that keeps the laws of its interface, every asynchronous call of the client that
-- returns has written the key that the client goes on to read, and every synchronous one the argument.
pub submit-Gives :
    {S : Type 0} (l : Library S) (arg : Arg) (s : Program S)
    → IsLibrary l
    → Gives (λ key t. (idx : EntryIdx) × (key ≡ some idx)) (submit l arg s)
      × Gives (λ out t. (given : Arg) × (out ≡ some given)) (sync_call l arg s)
unfolding submit sync_call
submit-Gives l arg s laws = (
  after (put_library-Gives s (laws.async_gives arg compress 1 s.library (omega arith)))
      λ r t (idx, e). gives (idx, ap (λ x. x.1) e),
  after (put_library-Gives s (laws.sync_gives arg compress 1 s.library (omega arith)))
      λ r t (out, e). gives (out, ap (λ x. x.1) e),
)
