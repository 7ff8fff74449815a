-- ===== src/Inspector/Tests.antt =====
-- Runs of the inspector.
use tuzy.Shared.{All, ◌+◌, ◌≡◌, refl, true, false, some, List, [], ◌∷◌}
use tuzy.Inspector.{Entry}
use tuzy.Inspector.Bodies.{Growth}
use tuzy.Inspector.ContentLength.{declared_content_length, content_length}
use tuzy.Inspector.Store.{new_store, find}
use tuzy.Inspector.Accounts.{IsValid}
use tuzy.Inspector.History.{
  Action, adds, updates, mutates, subscribes, receives, run, run_stays_valid,
}
use tuzy.Inspector.Subscribers.{IsTold, subscribers_miss_nothing}
use tuzy.Inspector.Capture.{ReqHead, Tap, begin_entry, begin, end}
use tuzy.Inspector.Recorded.{Chunks, feed, IsRecord, end-IsRecord}

abbrev upload : ReqHead
upload = record {
  method = "PUT";
  path = "/file";
  headers = (content_length, 32 ∷ 49 ∷ 50 ∷ []) ∷ [];
  remote_ip = "203.0.113.9";
  kind = "http";
}

abbrev doubled : Growth
doubled old n = n + n

abbrev day : List Action
day =
    subscribes 1
    ∷ adds (begin_entry 10 "web" upload)
    ∷ adds (begin_entry 11 "web" upload)
    ∷ receives 1
    ∷ updates 1 (λ e. record e { status = 404 })
    ∷ mutates false 2 (λ e. record e { status = 500 })
    ∷ []

run_stays_valid_example : IsValid (run new_store day)
run_stays_valid_example = run_stays_valid day

subscribers_miss_nothing_example : All (IsTold day) (run new_store day).subs
subscribers_miss_nothing_example = subscribers_miss_nothing day

abbrev chunks : Chunks
chunks = (true, 7 ∷ 8 ∷ []) ∷ (false, 9 ∷ []) ∷ (true, 10 ∷ []) ∷ []

end-IsRecord_example :
    let t : Tap = feed doubled chunks (begin 20 "web" upload (run new_store day)) in
    (e : Entry) × (find t.0.id (end 5 "" t).1.entries ≡ some e) × IsRecord chunks e
end-IsRecord_example =
    end-IsRecord doubled 20 5 "web" "" upload chunks (run new_store day) (run_stays_valid day)

declared_twelve : declared_content_length upload.headers ≡ some 12
unfolding declared_content_length
declared_twelve = refl
