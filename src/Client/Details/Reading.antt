-- ===== src/Client/Details/Reading.antt =====
-- inc/protocol.h: a member of the supplement union that may be read has a value.
use minifilter_monitor.Common.{◌≡◌, refl, Option, some, arith}
use minifilter_monitor.Protocol.Supplements.{Supplement}
use minifilter_monitor.Driver.Routing.Union.{Member}
use minifilter_monitor.Client.Details.Members.{
  IsReadable, HasRoom, written_member, create_member, read_write_member, query_info_member,
  query_ea_member, set_ea_member, volume_info_member, query_directory_member,
  notify_directory_member, lock_control_member, security_member, wmi_member, query_quota_member,
  set_quota_member, mod_write_member, mount_member,
}

-- There is a value.
abbrev pub IsSome {ℓ} : {A : Type ℓ} → Option A → Type ℓ
IsSome {A} o = (a : A) × (o ≡ some a)

-- There is a value, with a property.
abbrev pub IsRead {ℓ} : {A : Type ℓ} → Option A → (A → Type 0) → Type ℓ
IsRead {A = A} o P = (a : A) × (o ≡ some a) × P a

pub create_member-IsSome :
    (s : Supplement)
    → IsReadable s Member.create
    → IsRead (create_member s) (λ x. HasRoom x.ea_buffer)
unfolding create_member written_member
create_member-IsSome Supplement.zeroed h = (_, refl, omega arith)
create_member-IsSome (Supplement.create x) h = (x, refl, h.0)
create_member-IsSome other h = absurd (ground (arith, h))

pub read_write_member-IsSome :
    (s : Supplement)
    → IsReadable s Member.read_write
    → IsRead (read_write_member s) (λ x. HasRoom x)
unfolding read_write_member written_member
read_write_member-IsSome Supplement.zeroed h = (_, refl, omega arith)
read_write_member-IsSome (Supplement.read_write x) h = (x, refl, h.0)
read_write_member-IsSome other h = absurd (ground (arith, h))

pub query_info_member-IsSome :
    (s : Supplement)
    → IsReadable s Member.query_info
    → IsRead (query_info_member s) (λ x. HasRoom x)
unfolding query_info_member written_member
query_info_member-IsSome Supplement.zeroed h = (_, refl, omega arith)
query_info_member-IsSome (Supplement.query_info x) h = (x, refl, h.0)
query_info_member-IsSome other h = absurd (ground (arith, h))

pub query_ea_member-IsSome :
    (s : Supplement)
    → IsReadable s Member.query_ea
    → IsRead (query_ea_member s) (λ x. HasRoom x.first × HasRoom x.second)
unfolding query_ea_member written_member
query_ea_member-IsSome Supplement.zeroed h = (_, refl, (omega arith, omega arith))
query_ea_member-IsSome (Supplement.query_ea x) h = (x, refl, h.0)
query_ea_member-IsSome other h = absurd (ground (arith, h))

pub set_ea_member-IsSome :
    (s : Supplement) → IsReadable s Member.set_ea → IsRead (set_ea_member s) (λ x. HasRoom x)
unfolding set_ea_member written_member
set_ea_member-IsSome Supplement.zeroed h = (_, refl, omega arith)
set_ea_member-IsSome (Supplement.set_ea x) h = (x, refl, h.0)
set_ea_member-IsSome other h = absurd (ground (arith, h))

pub volume_info_member-IsSome :
    (s : Supplement)
    → IsReadable s Member.volume_info
    → IsRead (volume_info_member s) (λ x. HasRoom x)
unfolding volume_info_member written_member
volume_info_member-IsSome Supplement.zeroed h = (_, refl, omega arith)
volume_info_member-IsSome (Supplement.volume_info x) h = (x, refl, h.0)
volume_info_member-IsSome other h = absurd (ground (arith, h))

pub query_directory_member-IsSome :
    (s : Supplement)
    → IsReadable s Member.query_directory
    → IsRead (query_directory_member s) (λ x. HasRoom x.payload)
unfolding query_directory_member written_member
query_directory_member-IsSome Supplement.zeroed h = (_, refl, omega arith)
query_directory_member-IsSome (Supplement.query_directory x) h = (x, refl, h.0)
query_directory_member-IsSome other h = absurd (ground (arith, h))

pub notify_directory_member-IsSome :
    (s : Supplement)
    → IsReadable s Member.notify_directory
    → IsRead (notify_directory_member s) (λ x. HasRoom x)
unfolding notify_directory_member written_member
notify_directory_member-IsSome Supplement.zeroed h = (_, refl, omega arith)
notify_directory_member-IsSome (Supplement.notify_directory x) h = (x, refl, h.0)
notify_directory_member-IsSome other h = absurd (ground (arith, h))

pub lock_control_member-IsSome :
    (s : Supplement) → IsReadable s Member.lock_control → IsSome (lock_control_member s)
unfolding lock_control_member written_member
lock_control_member-IsSome Supplement.zeroed h = (_, refl)
lock_control_member-IsSome (Supplement.lock_control x) h = (x, refl)
lock_control_member-IsSome other h = absurd (ground (arith, h))

pub security_member-IsSome :
    (s : Supplement) → IsReadable s Member.security → IsRead (security_member s) (λ x. HasRoom x)
unfolding security_member written_member
security_member-IsSome Supplement.zeroed h = (_, refl, omega arith)
security_member-IsSome (Supplement.security x) h = (x, refl, h.0)
security_member-IsSome other h = absurd (ground (arith, h))

pub wmi_member-IsSome : (s : Supplement) → IsReadable s Member.wmi → IsSome (wmi_member s)
unfolding wmi_member written_member
wmi_member-IsSome Supplement.zeroed h = (_, refl)
wmi_member-IsSome (Supplement.wmi x) h = (x, refl)
wmi_member-IsSome other h = absurd (ground (arith, h))

pub query_quota_member-IsSome :
    (s : Supplement)
    → IsReadable s Member.query_quota
    → IsRead (query_quota_member s) (λ x. HasRoom x.first × HasRoom x.second)
unfolding query_quota_member written_member
query_quota_member-IsSome Supplement.zeroed h = (_, refl, (omega arith, omega arith))
query_quota_member-IsSome (Supplement.query_quota x) h = (x, refl, h.0)
query_quota_member-IsSome other h = absurd (ground (arith, h))

pub set_quota_member-IsSome :
    (s : Supplement) → IsReadable s Member.set_quota → IsRead (set_quota_member s) (λ x. HasRoom x)
unfolding set_quota_member written_member
set_quota_member-IsSome Supplement.zeroed h = (_, refl, omega arith)
set_quota_member-IsSome (Supplement.set_quota x) h = (x, refl, h.0)
set_quota_member-IsSome other h = absurd (ground (arith, h))

pub mod_write_member-IsSome :
    (s : Supplement) → IsReadable s Member.mod_write → IsSome (mod_write_member s)
unfolding mod_write_member written_member
mod_write_member-IsSome Supplement.zeroed h = (_, refl)
mod_write_member-IsSome (Supplement.mod_write x) h = (x, refl)
mod_write_member-IsSome other h = absurd (ground (arith, h))

pub mount_member-IsSome : (s : Supplement) → IsReadable s Member.mount → IsSome (mount_member s)
unfolding mount_member written_member
mount_member-IsSome Supplement.zeroed h = (_, refl)
mount_member-IsSome (Supplement.mount x) h = (x, refl)
mount_member-IsSome other h = absurd (ground (arith, h))
