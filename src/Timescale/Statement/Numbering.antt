-- ===== src/Timescale/Statement/Numbering.antt =====
-- The placeholders of the query of `TimescaleDBStorage` in src/dbus_event_log/storage.py, against
-- the list of comparisons that its filters ask for.
use Prim.Native.String.{◌++◌ as str_append}
use mathlib.Core.List.{append_assoc, append-nil, map-append}
use dbus_event_log.Prelude.{
  suc, ◌+◌, ◌≡◌, refl, ap, sym, subst, ◌∙◌, Bool-cases, inl, inr, String, Option, none, some, List,
  [], ◌∷◌, ◌++◌, length, length-append, str_eq, if◌then◌else◌, arith, map,
}
use dbus_event_log.Event.Kinds.{EventType, event_type_value}
use dbus_event_log.Storage.Time.{Formats, Stamp}
use dbus_event_log.Storage.Query.{Filters}
use dbus_event_log.Timescale.{Result, ok, err}
use dbus_event_log.Timescale.Statement.{
  Param, instant, text, number, Comparison, timestamp_ge, timestamp_le, service_ilike,
  event_type_eq, Condition, Builder, Statement, start_builder, add_condition, query_timestamp,
  add_instant, add_time, add_service, add_type, finish, built, with_end, statement, param_at, bound,
}

-- What the filters ask for, in order.
abbrev pub Asked : Type 0
Asked = List (Comparison × Param)

abbrev pub asked_instant : Comparison → Result Stamp → Result Asked
asked_instant c (err e) = err e
asked_instant c (ok s) = ok ((c, instant s) ∷ [])

abbrev pub asked_time : Formats → Comparison → Option String → Result Asked
asked_time f c none = ok []
asked_time f c (some value) =
    if str_eq value "" then ok [] else asked_instant c (query_timestamp f value)

abbrev pub asked_service : Option String → Asked
asked_service none = []
asked_service (some service) =
    if str_eq service ""
    then []
    else (service_ilike, text (str_append "%" (str_append service "%"))) ∷ []

abbrev pub asked_type : Option EventType → Asked
asked_type none = []
asked_type (some t) = (event_type_eq, text (event_type_value t)) ∷ []

abbrev join_end : Asked → Asked → Result Asked → Result Asked
join_end start others (err e) = err e
join_end start others (ok end_) = ok ((start ++ end_) ++ others)

abbrev join_start : Result Asked → Asked → Result Asked → Result Asked
join_start (err e) others end_ = err e
join_start (ok start) others end_ = join_end start others end_

unfoldable pub asked : Formats → Filters → Result Asked
asked f q =
    join_start (asked_time f timestamp_ge q.start_time)
      (asked_service q.service ++ asked_type q.event_type) (asked_time f timestamp_le q.end_time)

-- A comparison with the parameter that its placeholder finds.
abbrev pub found : Comparison × Param → Comparison × Option Param
found (c, p) = (c, some p)

-- A builder holds what was asked, whatever parameters follow.
record Holds (b : Builder) (l : Asked) : Type 0 where
  numbered : b.param_idx ≡ length b.params + 1
  sized : length b.params ≡ length l
  places : (extra : List Param) → bound b.conditions (b.params ++ extra) ≡ map found l

param_at-append :
    (params : List Param) (p : Param) (extra : List Param)
    → param_at (suc (length params)) (params ++ p ∷ extra) ≡ some p
unfolding param_at
param_at-append [] p extra = refl
param_at-append (x ∷ params) p extra = param_at-append params p extra

bound-append :
    (a b : List Condition) (params : List Param)
    → bound (a ++ b) params ≡ bound a params ++ bound b params
unfolding bound
bound-append [] b params = refl
bound-append (c ∷ a) b params =
    ap (λ t. (c.comparison, param_at c.index params) ∷ t) (bound-append a b params)

add_condition-Holds :
    (c : Comparison) (p : Param) (b : Builder) (l : Asked)
    → Holds b l
    → Holds (add_condition c p b) (l ++ (c, p) ∷ [])
unfolding add_condition bound
add_condition-Holds c p b l h = record {
  numbered = omega (arith, h.numbered, length-append b.params (p ∷ []));
  sized = omega (arith, h.sized, length-append b.params (p ∷ []), length-append l ((c, p) ∷ []));
  places = λ extra.
      bound-append b.conditions (record { comparison = c; index = b.param_idx } ∷ [])
        ((b.params ++ p ∷ []) ++ extra)
      ∙ ap (λ ps. bound b.conditions ps ++ (c, param_at b.param_idx ps) ∷ [])
          (append_assoc b.params (p ∷ []) extra)
      ∙ ap (λ t. t ++ (c, param_at b.param_idx (b.params ++ p ∷ extra)) ∷ []) (h.places (p ∷ extra))
      ∙ ap (λ o. map found l ++ (c, o) ∷ [])
          (ap (λ i. param_at i (b.params ++ p ∷ extra)) (next_index h.numbered)
            ∙ param_at-append b.params p extra)
      ∙ sym (map-append found l ((c, p) ∷ []));
}
  where
    next_index : b.param_idx ≡ length b.params + 1 → b.param_idx ≡ suc (length b.params)
    next_index e = omega (arith, e)

-- The builders agree with what was asked, errors included.
abbrev Agrees : Result Builder → Result Asked → Type 0
Agrees (ok b) (ok l) = Holds b l
Agrees (err e) (err e') = e ≡ e'
Agrees (ok b) (err e) = ⊥
Agrees (err e) (ok l) = ⊥

abbrev appended : Asked → Result Asked → Result Asked
appended l (err e) = err e
appended l (ok more) = ok (l ++ more)

Holds-nothing : (b : Builder) (l : Asked) → Holds b l → Holds b (l ++ [])
Holds-nothing b l h = subst (Holds b) (sym (append-nil l)) h

add_instant-Agrees :
    (c : Comparison) (s : Result Stamp) (b : Builder) (l : Asked)
    → Holds b l
    → Agrees (add_instant c s b) (appended l (asked_instant c s))
add_instant-Agrees c (err e) b l h = refl
add_instant-Agrees c (ok s) b l h = add_condition-Holds c (instant s) b l h

add_time-Agrees :
    (f : Formats) (c : Comparison) (o : Option String) (b : Builder) (l : Asked)
    → Holds b l
    → Agrees (add_time f c o b) (appended l (asked_time f c o))
add_time-Agrees f c none b l h = Holds-nothing b l h
add_time-Agrees f c (some value) b l h = elim (Bool-cases (str_eq value "")) [
  | inl blank ↦ rw blank (Holds-nothing b l h)
  | inr given ↦ rw given (add_instant-Agrees c (query_timestamp f value) b l h)
]

add_service-Holds :
    (o : Option String) (b : Builder) (l : Asked)
    → Holds b l
    → Holds (add_service o b) (l ++ asked_service o)
add_service-Holds none b l h = Holds-nothing b l h
add_service-Holds (some service) b l h = elim (Bool-cases (str_eq service "")) [
  | inl blank ↦ rw blank (Holds-nothing b l h)
  | inr given ↦
      rw given
        (add_condition-Holds service_ilike (text (str_append "%" (str_append service "%"))) b l h)
]

add_type-Holds :
    (o : Option EventType) (b : Builder) (l : Asked)
    → Holds b l
    → Holds (add_type o b) (l ++ asked_type o)
add_type-Holds none b l h = Holds-nothing b l h
add_type-Holds (some t) b l h = add_condition-Holds event_type_eq (text (event_type_value t)) b l h

-- A statement whose placeholders are those that were asked for.
pub record IsNumbered (q : Filters) (st : Statement) (l : Asked) : Type 0 where
  pub places : bound st.where_ st.params ≡ map found l
  pub limit : param_at st.limit_index st.params ≡ some (number q.limit)
  pub offset : param_at st.offset_index st.params ≡ some (number q.offset)
  pub sized : length st.params ≡ length l + 2

-- A statement for what was asked, or the same error.
abbrev pub Answers : Filters → Result Statement → Result Asked → Type 0
Answers q (ok st) (ok l) = IsNumbered q st l
Answers q (err e) (err e') = e ≡ e'
Answers q (ok st) (err e) = ⊥
Answers q (err e) (ok l) = ⊥

finish-IsNumbered :
    (q : Filters) (b : Builder) (l : Asked) → Holds b l → IsNumbered q (finish q b) l
finish-IsNumbered q b l h = record {
  places = h.places (number q.limit ∷ number q.offset ∷ []);
  limit =
      ap (λ i. param_at i (b.params ++ number q.limit ∷ number q.offset ∷ [])) (at_limit h.numbered)
      ∙ param_at-append b.params (number q.limit) (number q.offset ∷ []);
  offset =
      ap (λ i. param_at i (b.params ++ number q.limit ∷ number q.offset ∷ []))
        (at_offset h.numbered)
      ∙ ap (param_at (suc (length (b.params ++ number q.limit ∷ []))))
          (sym (append_assoc b.params (number q.limit ∷ []) (number q.offset ∷ [])))
      ∙ param_at-append (b.params ++ number q.limit ∷ []) (number q.offset) [];
  sized = omega (arith, h.sized, length-append b.params (number q.limit ∷ number q.offset ∷ []));
}
  where
    at_limit : b.param_idx ≡ length b.params + 1 → b.param_idx ≡ suc (length b.params)
    at_limit e = omega (arith, e)

    at_offset :
        b.param_idx ≡ length b.params + 1
        → b.param_idx + 1 ≡ suc (length (b.params ++ number q.limit ∷ []))
    at_offset e = omega (arith, e, length-append b.params (number q.limit ∷ []))

appended-nil : (r : Result Asked) → appended [] r ≡ r
appended-nil (err e) = refl
appended-nil (ok l) = refl

start_builder-Holds : Holds start_builder []
unfolding bound
start_builder-Holds = record { numbered = omega arith; sized = refl; places = λ extra. refl }

abbrev joined : Asked → Result Asked → Result Asked
joined others (err e) = err e
joined others (ok l) = ok (l ++ others)

built-Answers :
    (q : Filters) (b : Result Builder) (l : Result Asked)
    → Agrees b l
    → Answers q (built q b) (joined (asked_service q.service ++ asked_type q.event_type) l)
built-Answers q (ok b) (ok l) h =
    subst (IsNumbered q (finish q (add_type q.event_type (add_service q.service b))))
      (append_assoc l (asked_service q.service) (asked_type q.event_type))
      (finish-IsNumbered q (add_type q.event_type (add_service q.service b))
        ((l ++ asked_service q.service) ++ asked_type q.event_type)
        (add_type-Holds q.event_type (add_service q.service b) (l ++ asked_service q.service)
          (add_service-Holds q.service b l h)))
built-Answers q (err e) (err e') h = h
built-Answers q (ok b) (err e) h = h
built-Answers q (err e) (ok l) h = h

-- The statement of a query is a faithful form of its filters: each condition's placeholder finds
-- the value that its comparison is asked for, in order, LIMIT and OFFSET find theirs, there are no
-- other parameters, and an invalid bound is refused alike.
pub statement-Answers : (f : Formats) (q : Filters) → Answers q (statement f q) (asked f q)
unfolding statement asked
statement-Answers f q =
    from_start (add_time f timestamp_ge q.start_time start_builder)
      (asked_time f timestamp_ge q.start_time)
      (subst (Agrees (add_time f timestamp_ge q.start_time start_builder))
        (appended-nil (asked_time f timestamp_ge q.start_time))
        (add_time-Agrees f timestamp_ge q.start_time start_builder [] start_builder-Holds))
  where
    others : Asked
    others = asked_service q.service ++ asked_type q.event_type

    from_end :
        (start : Asked) (b : Result Builder) (e : Result Asked)
        → Agrees b (appended start e)
        → Answers q (built q b) (join_end start others e)
    from_end start b (err e) h = built-Answers q b (err e) h
    from_end start b (ok l) h = built-Answers q b (ok (start ++ l)) h

    from_start :
        (b : Result Builder) (start : Result Asked)
        → Agrees b start
        → Answers q
            (built q (with_end f q b))
            (join_start start others (asked_time f timestamp_le q.end_time))
    from_start (ok b) (ok l) h =
        from_end l (add_time f timestamp_le q.end_time b) (asked_time f timestamp_le q.end_time)
          (add_time-Agrees f timestamp_le q.end_time b l h)
    from_start (err e) (err e') h = h
    from_start (ok b) (err e) h = absurd h
    from_start (err e) (ok l) h = absurd h
