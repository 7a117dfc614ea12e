-- ===== src/Monitor/Reads.antt =====
-- 19-1-file_monitor.c: what is printed over any number of reads.
use tlpi_practice.Common.{
  ℕ, suc, ◌+◌, ◌≡◌, refl, sym, ap, ◌∙◌, Option, some, List, [], ◌∷◌, ◌++◌, map, length, arith,
}
use mathlib.Core.List.{append_assoc, append-nil}
use tlpi_practice.Common.Disk.{Bytes}
use tlpi_practice.Monitor.{Node, Event, Read, got, waits, watch, nftw, main}
use tlpi_practice.Monitor.Events.{AllValid, buffer_of, report, length-laid_out, show_events-report}

-- A call of `read`: events, with what an earlier call has left behind them.
pub record Delivery : Type 0 where
  pub events : List Event
  pub stale : Bytes

abbrev pub read_of : Delivery → Read
read_of d = got (buffer_of d.events d.stale) (length (buffer_of d.events []))

unfoldable pub AllDelivered : List Delivery → Type 0
AllDelivered [] = Unit {0}
AllDelivered (d ∷ ds) = AllValid d.events × AllDelivered ds

unfoldable pub reports : List Delivery → Bytes
unfolding report
reports [] = []
reports (d ∷ ds) = report d.events ++ reports ds

length-stale :
    (es : List Event) (stale : Bytes)
    → AllValid es
    → length (buffer_of es []) + length stale ≡ length (buffer_of es stale)
unfolding buffer_of AllValid
length-stale [] stale valid = omega arith
length-stale (e ∷ es) stale (v, valid) = omega (
  arith,
  length-laid_out e (buffer_of es stale) v,
  length-laid_out e (buffer_of es []) v,
  length-stale es stale valid,
)

watch-reports :
    (ds : List Delivery) (out : Bytes)
    → AllDelivered ds
    → watch (map read_of ds) out ≡ waits (out ++ reports ds)
unfolding watch reports AllDelivered
watch-reports [] out valid = ap waits (sym (append-nil out))
watch-reports (d ∷ ds) out (valid, more) =
    let n = length (buffer_of d.events []) in
    let one =
      show_events-report d.events [] d.stale (suc n) n 0 valid refl
        (omega (arith, length-stale d.events d.stale valid)) (omega arith) in
    rw (watch, one)
      (watch-reports ds (out ++ report d.events) more
        ∙ ap waits (append_assoc out (report d.events) (reports ds)))

-- The events that the kernel has laid out in the buffer are read back and printed, each once and in
-- their order, over any number of reads, and what earlier reads have left behind them in the buffer
-- is not looked at. This is where the files of the tree could be watched, the words of an event have
-- 32 bits and `len` counts the bytes of its name, which ends within them.
pub main-reports :
    (files : List (Bytes × Option ℕ)) (header : List Node) (ds : List Delivery)
    → nftw files [] ≡ some header
    → AllDelivered ds
    → main files (map read_of ds) ≡ waits (reports ds)
unfolding main
main-reports files header ds watched valid = rw (main, watched) (watch-reports ds [] valid)
