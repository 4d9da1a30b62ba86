-- ===== src/Manager/Request/Urls.antt =====
-- Which requests change anything but the replies, in src/manager.C.
use ptf.Prelude.{
  ◌≡◌, refl, sym, ap, ◌∙◌, ◌≢◌, false, some, [], ◌∷◌, ◌++◌, Bool-cases, inl, inr, arith,
}
use ptf.Http.Text.{Text}
use ptf.Text.{codes, text_eq, strncmp_eq}
use ptf.Text.Compare.{eq_of_text_eq, strncmp_eq-text_eq}
use ptf.Manager.World.{Env, Reply, Manager}
use ptf.Manager.Request.{process_http_req}

abbrev pub new_test_url : Text
new_test_url = codes "/ptf/new_test"

-- `n` differs from `m` in the replies at most, of which it has one more.
pub record OneReply (m n : Manager) : Type 0 where
  pub threads : n.threads ≡ m.threads
  pub cps_map : n.cps_map ≡ m.cps_map
  pub csocket_map : n.csocket_map ≡ m.csocket_map
  pub files : n.files ≡ m.files
  pub scripts : n.scripts ≡ m.scripts
  pub replied : (r : Reply) × (n.replies ≡ m.replies ++ (r ∷ []))

same_but_reply :
    {m n : Manager} (r : Reply)
    → (n ≡ record m { buff = n.buff; replies = m.replies ++ (r ∷ []) })
    → OneReply m n
same_but_reply r e = record {
  threads = ap (λ k. k.threads) e;
  cps_map = ap (λ k. k.cps_map) e;
  csocket_map = ap (λ k. k.csocket_map) e;
  files = ap (λ k. k.files) e;
  scripts = ap (λ k. k.scripts) e;
  replied = (r, ap (λ k. k.replies) e);
}

-- The test of the URL for 18 bytes, of which "/ptf/new_test" has 13, is a test for that URL alone.
is_new_test : (url : Text) → url ≢ new_test_url → strncmp_eq new_test_url url 18 ≡ false
is_new_test url ne = elim (Bool-cases (text_eq new_test_url url)) [
  | inl e ↦ absurd (ne (sym (eq_of_text_eq new_test_url url e)))
  | inr e ↦ strncmp_eq-text_eq new_test_url url 18 (omega arith) ∙ e
]

-- A request whose URL is not exactly /ptf/new_test is answered with one reply, and workers,
-- connections, socket pools, files and scripts stay as they are.
pub process_http_req-other_url :
    (env : Env) (url body : Text) (m : Manager)
    → url ≢ new_test_url
    → (n : Manager) × (process_http_req env url body m ≡ some n) × OneReply m n
unfolding process_http_req
process_http_req-other_url env url body m ne = elim (Bool-cases (text_eq (codes "/") url)) [
  | inl e ↦ rw e (_, refl, same_but_reply _ refl)
  | inr e ↦ elim (Bool-cases (strncmp_eq (codes "/ptf") url 4)) [
    | inl e' ↦ rw (e, e', is_new_test url ne) (_, refl, same_but_reply _ refl)
    | inr e' ↦ rw (e, e') (_, refl, same_but_reply _ refl)
  ]
]
