-- ===== src/Tests.antt =====
-- The theorems at concrete inputs.
mod OnSession
mod OnQuota
mod OnErrors
mod OnUpdate
mod OnApply
mod OnServer
mod OnPort
mod OnStatic
mod OnDataApi
mod OnHandlers
mod OnSaves
mod OnRetention
mod OnStorage
mod OnSidecar
mod OnRelease
