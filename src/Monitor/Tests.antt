-- ===== src/Monitor/Tests.antt =====
-- 19-1-file_monitor.c for a file that is created in the first of two watched directories.
use tlpi_practice.Common.{ℕ, ◌≡◌, refl, Option, some, none, List, [], ◌∷◌, ◌++◌, map, arith}
use tlpi_practice.Common.CString.{cstring}
use tlpi_practice.Common.Decimal.{decimal, decimal_onto}
use tlpi_practice.Common.Disk.{Bytes}
use tlpi_practice.Common.Text.{text}
use tlpi_practice.Monitor.{
  Node, Event, nftw, inotify_adder, display_inotify_event, padded_int, flag_words, flags, waits,
  exits, fails, main,
}
use tlpi_practice.Monitor.Events.{HasNul, Valid, AllValid, report}
use tlpi_practice.Monitor.Reads.{Delivery, read_of, AllDelivered, reports, main-reports}

abbrev created : Event
created = record { wd = 1; mask = 0x100; cookie = 0; len = 3; name = b'a' ∷ 0 ∷ 0 ∷ [] }

abbrev delivery : Delivery
delivery = record { events = created ∷ created ∷ []; stale = 1 ∷ 2 ∷ [] }

created-Valid : Valid created
unfolding HasNul
created-Valid = record {
  wd_fits = omega arith;
  mask_fits = omega arith;
  cookie_fits = omega arith;
  len_fits = omega arith;
  counts = refl;
  ended = λ h. tt;
}

delivered : AllDelivered (delivery ∷ [])
unfolding AllDelivered AllValid
delivered = ((created-Valid, (created-Valid, tt)), tt)

abbrev files : List (Bytes × Option ℕ)
files = (text "d", some 1) ∷ (text "d/e", some 2) ∷ []

abbrev header : List Node
header = record { wd = 2; fpath = text "d/e" } ∷ record { wd = 1; fpath = text "d" } ∷ []

watched : nftw files [] ≡ some header
unfolding nftw inotify_adder
watched = refl

printed :
    display_inotify_event created
    ≡ text "    wd = 1; mask = IN_CREATE " ++ (10 ∷ (text "        name = a" ++ 10 ∷ []))
unfolding display_inotify_event padded_int flag_words flags cstring decimal decimal_onto text
printed = refl

main-reports_example :
    main files (map read_of (delivery ∷ []))
    ≡ waits ((display_inotify_event created ++ (display_inotify_event created ++ [])) ++ [])
unfolding reports report
main-reports_example = main-reports files header (delivery ∷ []) watched delivered

-- Where a watch cannot be added, the program ends.
unwatched : main ((text "d", none) ∷ []) (fails ∷ []) ≡ exits []
unfolding main nftw inotify_adder
unwatched = refl
