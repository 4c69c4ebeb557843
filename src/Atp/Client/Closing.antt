-- ===== src/Atp/Client/Closing.antt =====
-- atp/client.go: the client after Close.
use arcaflow_plugin_sdk_go.Common.{
  pos, ltb_ℤ, Bool, true, false, ◌&&◌, List, [], ◌≡◌, refl, Bool-cases, inl, inr, if◌then◌else◌,
}
use arcaflow_plugin_sdk_go.Atp.Protocol.{RuntimeMessage}
use arcaflow_plugin_sdk_go.Atp.Client.{Client, close}
use arcaflow_plugin_sdk_go.Atp.Client.Session.{WriteEvent, closed, execute_write_loop, close_result}

done-if :
    (b : Bool) (c d : Client) → c.done ≡ true → d.done ≡ true → (if b then c else d).done ≡ true
done-if true c d h k = h
done-if false c d h k = k

close-done : (writes : Bool) (c : Client) → (close writes c).done ≡ true
unfolding close
close-done writes c = elim (Bool-cases c.done) [
  | inl e ↦ rw e refl
  | inr e ↦ rw e (done-if (ltb_ℤ (pos 1) c.atp_version && writes) _ _ refl refl)
]

done-close : (writes : Bool) (c : Client) → c.done ≡ true → close writes c ≡ c
unfolding close
done-close writes c h = rw h refl

-- After Close, whether it could send its message or not, another Close sends nothing, changes nothing and
-- returns nil, and a loop that sends signals returns without sending any.
close-final :
    (writes again in_time : Bool) (sends : RuntimeMessage → Bool) (es : List WriteEvent)
    (c : Client)
    → let after = close writes c in
      (close again after ≡ after)
      × (close_result again in_time after ≡ closed)
      × (execute_write_loop sends es after ≡ ([], true))
unfolding close_result execute_write_loop
close-final writes again in_time sends es c =
    let over = close-done writes c in
    (done-close again (close writes c) over, rw over refl, rw over refl)
