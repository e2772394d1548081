-- ===== src/Class/Ping.antt =====
-- src/class.c: how often a client is pinged.
use ircd_hybrid_8_cvs.Common.{◌≡◌, refl, true, List, [], ◌∷◌, Option, none, some, if_elim}
use ircd_hybrid_8_cvs.Common.Int.{ℤ}
use ircd_hybrid_8_cvs.Class.{Conf, positive, better_ping, get_conf_ping, ping_of, get_client_ping}

better_ping-positive :
    (ping : ℤ) (o : Option ℤ) → positive ping ≡ true → positive (better_ping ping o) ≡ true
better_ping-positive ping none pos_ping = pos_ping
better_ping-positive ping (some p) pos_ping =
    if_elim (λ (n : ℤ). positive n ≡ true) (positive p) (λ e. e) (λ _. pos_ping)

ping_of-positive :
    (confs : List Conf) (ping : ℤ) → positive ping ≡ true → positive (ping_of ping confs) ≡ true
unfolding ping_of
ping_of-positive [] ping pos_ping = pos_ping
ping_of-positive (conf ∷ confs) ping pos_ping = ping_of-positive confs _ (
    if_elim (λ (n : ℤ). positive n ≡ true) conf.client_or_server
      (λ _. better_ping-positive ping (get_conf_ping conf) pos_ping) (λ _. pos_ping))

-- get_client_ping is positive, whatever frequencies the classes of the client have.
pub get_client_ping-positive : (confs : List Conf) → positive (get_client_ping confs) ≡ true
unfolding get_client_ping
get_client_ping-positive confs = ping_of-positive confs _ refl
