-- ===== src/Checks.antt =====
-- Runs of the model on concrete inputs, and the theorems at such inputs.
mod Reading
mod Alerts
mod Links
mod Traffic
mod Repairs
mod Notifications
mod Histories
mod Processes
mod Configured
