-- ===== src/RealIp/Tests.antt =====
-- Runs of the middleware on a small network of numbered addresses.
use miniclass.Base.{◌≡◌, refl, List, [], ◌∷◌, ◌++◌, none, some, ℕ}
use miniclass.Base.Text.{Text, codes}
use miniclass.Samples.{digits}
use miniclass.RealIp.{ForwardedRequest, rightmost_untrusted_forwarded_ip, trusted_proxy_real_ip}
use miniclass.RealIp.Walk.{IsRightmost, all_entries, rightmost_untrusted_forwarded_ip-IsRightmost}
use miniclass.RealIp.Forgery.{rightmost_untrusted_forwarded_ip-forged}

abbrev proxies : List ℕ
proxies = b'9' ∷ []

abbrev headers : List Text
headers = codes "1, 9" ∷ codes "2,9" ∷ []

abbrev attacked : List Text
attacked = codes "7" ∷ (codes "8" ++ (b',' ∷ codes "2, 9")) ∷ []

chosen : rightmost_untrusted_forwarded_ip digits proxies headers ≡ some b'2'
unfolding rightmost_untrusted_forwarded_ip
chosen = refl

garbage : rightmost_untrusted_forwarded_ip digits proxies (codes "1,x y" ∷ []) ≡ none
unfolding rightmost_untrusted_forwarded_ip
garbage = refl

all_trusted : rightmost_untrusted_forwarded_ip digits proxies (codes "9, 9" ∷ []) ≡ none
unfolding rightmost_untrusted_forwarded_ip
all_trusted = refl

rightmost_untrusted_forwarded_ip-IsRightmost_example :
    IsRightmost digits proxies (all_entries headers) b'2'
rightmost_untrusted_forwarded_ip-IsRightmost_example =
    rightmost_untrusted_forwarded_ip-IsRightmost digits proxies headers b'2' chosen

honest_alone : rightmost_untrusted_forwarded_ip digits proxies (codes "2, 9" ∷ []) ≡ some b'2'
unfolding rightmost_untrusted_forwarded_ip
honest_alone = refl

rightmost_untrusted_forwarded_ip-forged_example :
    rightmost_untrusted_forwarded_ip digits proxies attacked ≡ some b'2'
rightmost_untrusted_forwarded_ip-forged_example =
    rightmost_untrusted_forwarded_ip-forged digits proxies (codes "7" ∷ []) (codes "8")
      (codes "2, 9") b'2' honest_alone

abbrev stranger : ForwardedRequest
stranger = record {
  remote_addr = codes "3";
  x_forwarded_for = codes "1" ∷ [];
  x_real_ip = codes "1" ∷ [];
}

stranger_stays : trusted_proxy_real_ip digits proxies stranger ≡ stranger
unfolding trusted_proxy_real_ip
stranger_stays = refl

through_proxy :
    (trusted_proxy_real_ip digits proxies (record stranger { remote_addr = codes "9" })).remote_addr
    ≡ codes "1"
unfolding trusted_proxy_real_ip
through_proxy = refl
