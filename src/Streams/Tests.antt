-- ===== src/Streams/Tests.antt =====
-- Runs of streams.
use x_pipeline.Prelude.{true, codes, [], ◌∷◌, ◌++◌, ◌≤◌, ◌<◌, ◌⊎◌, none, some, ◌≡◌, refl}
use x_pipeline.Message.{Message}
use x_pipeline.Streams.{
  StreamBase, round_robin, contains, add_producers, pause, resume, run_distribute, distribute_all,
}
use x_pipeline.Streams.Pausing.{pause-resume}

abbrev hi : Message
hi = record { payload = codes "hi"; stream_id = 5; prev_stream_id = 2; sequence = 1 }

abbrev three : StreamBase
three = record {
  accepts = λ m. true;
  format = λ m. (m.payload, m.stream_id);
  producers = 10 ∷ 20 ∷ 30 ∷ [];
  bound_stream_id = 5;
  distribute = round_robin;
  prev_distribute = round_robin;
  paused = none;
  index = 0x7FFFFFFF;
}

known_ten : contains (10 ∷ 20 ∷ []) 10 ≡ true
unfolding contains
known_ten = refl

found_forty : contains (add_producers (10 ∷ 20 ∷ []) ((40 ∷ []) ++ 10 ∷ 50 ∷ [])) 40 ≡ true
unfolding contains add_producers
found_forty = refl

pause-resume_example :
    ((2 ≤ 5)
      × ((s' : StreamBase) × (distribute_all (λ n. 0) (pause three 5) (hi ∷ hi ∷ [])
            ≡ some (s', []))
          × (resume (λ n. 0) s'
              ≡ distribute_all
                  (λ n. 0)
                  (record three { prev_distribute = round_robin })
                  (hi ∷ hi ∷ []))))
    ⊎ ((5 < 2) × (distribute_all (λ n. 0) (pause three 5) (hi ∷ hi ∷ []) ≡ none))
pause-resume_example = pause-resume (λ n. 0) three 5 (hi ∷ hi ∷ []) refl

pause-unbuffered : distribute_all (λ n. 0) (pause three 0) (hi ∷ []) ≡ none
unfolding distribute_all pause run_distribute
pause-unbuffered = refl
