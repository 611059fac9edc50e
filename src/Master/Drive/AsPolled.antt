-- ===== src/Master/Drive/AsPolled.antt =====
-- crates/sandstorm-core/src/master/drive.rs and master/api.rs: a node that is dialled and one that polls.
use forkd.Prelude.{
  Option, ◌⊎◌, inl, inr, ℕ, ◌≡◌, refl, String, none, some, List, [], ◌∷◌, same_refl,
}
use forkd.Proto.{Command, PollRequest}
use forkd.Node.Waiting.{leave_out_deferred}
use forkd.Master.{MasterState}
use forkd.Master.Handlers.{note_addr, ok, verified, answer, poll, authorises}
use forkd.Master.Reconcile.{Specs}
use forkd.Master.Drive.{Driver, SyncResponse, answered, batch_of, next_batch, noted, drive_round}

List-cases : {A : Type 0} (xs : List A) → (xs ≡ []) ⊎ ((x : A × List A) × (xs ≡ x.0 ∷ x.1))
List-cases [] = inl refl
List-cases (x ∷ xs) = inr ((x, xs), refl)

module _ {V : Type 0} (specs : Specs V) (sign : String → String → String → ℕ → String)
    (json : List (Command V) → String) where
  answer-next_batch :
      (st : MasterState V) (req : PollRequest) (now waited : ℕ)
      → req.deferred ≡ []
      → answer specs sign st req now waited ≡ next_batch specs sign json st req now
  unfolding answer next_batch leave_out_deferred
  answer-next_batch st req now waited e = rw e refl

  abbrev pub report_of : String → SyncResponse → PollRequest
  report_of id resp = record resp.report { node_id = id }

  -- A node that is dialled and to which nothing is outstanding is sent what it would have been answered had it
  -- polled with the same report, and the master's state becomes the same as of a state in which the address
  -- that the poll comes from, if it has one, was noted before; the wait included when there is nothing to send at
  -- once. The report defers nothing, as a listening node's does.
  pub drives_as_polled :
      (st : MasterState V) (id : String) (resp : SyncResponse) (now now_ms : ℕ)
      (later : MasterState V → MasterState V) (woken_at waited : ℕ) (d : Driver V)
      (peer : Option String)
      → resp.report.deferred ≡ []
      → d.batch ≡ none
      → ((drive_round specs sign json
            (note_addr st id peer)
            id
            (some resp)
            now
            now_ms
            later
            woken_at
            d).0
          ≡ (poll specs sign st
              (verified id)
              peer
              (report_of id resp)
              now
              now_ms
              later
              woken_at
              waited).0)
        × ((cs : List (Command V)) × ((poll specs sign st
                (verified id)
                peer
                (report_of id resp)
                now
                now_ms
                later
                woken_at
                waited).1
              ≡ ok cs)
            × ((drive_round specs sign json
                  (note_addr st id peer)
                  id
                  (some resp)
                  now
                  now_ms
                  later
                  woken_at
                  d).1.batch
                ≡ batch_of cs))
  unfolding drive_round answered poll authorises noted
  drives_as_polled st id resp now now_ms later woken_at waited d peer quiet fresh =
      let req = report_of id resp in
      let m = noted specs sign json (note_addr st id peer) req now now_ms in
      let look = next_batch specs sign json m req now in
      rw (same_refl id, answer-next_batch m req now 0 quiet, fresh)
        (elim (List-cases look.1) [
          | inl e ↦
              rw (e, answer-next_batch (later look.0) req woken_at waited quiet)
                (refl, (_, refl, refl))
          | inr ((c, cs), e) ↦ rw e (refl, (_, refl, refl))
        ])
